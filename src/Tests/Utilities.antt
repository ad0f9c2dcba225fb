-- ===== src/Tests/Utilities.antt =====
-- The ghosts, the names and the files of `util`.
use powerhoc.Common.{
  ℕ, ◌+◌, [], ◌∷◌, ◌++◌, some, Bytes, codes, List, true, ◌≡◌, ◌≢◌, Option, refl, arith, beq,
  if◌then◌else◌,
}
use powerhoc.Exc.{ok, err, raised, no_such_process}
use powerhoc.Ghosts.{Process, words, access_denied, gone, kill_ghosts, names_broker}
use powerhoc.Ghosts.Kills.{Picks, Yields, kill_ghosts-denied}
use powerhoc.IpcFiles.{Files}
use powerhoc.Resolve.{found, missing, Imports, resolve_name}
use powerhoc.Resolve.Search.{Resolution, resolve_name-Resolution}
use powerhoc.Text.{contains, split}
use powerhoc.Text.Decimal.{ℤ, pos}

abbrev broker_words : List Bytes
broker_words = codes "python" ∷ codes "-m" ∷ codes "powerhose.broker" ∷ []

abbrev present : List Process
present =
    record { pid = 10; cmdline = words broker_words; termination = ok tt }
    ∷ record { pid = 20; cmdline = words broker_words; termination = ok tt }
    ∷ record { pid = 30; cmdline = words (codes "powerhose-broker" ∷ []); termination = ok tt }
    ∷ record { pid = 40; cmdline = access_denied; termination = ok tt }
    ∷ record { pid = 50; cmdline = words (codes "vi" ∷ []); termination = ok tt }
    ∷ []

abbrev ended : Process
ended = record { pid = 60; cmdline = gone; termination = ok tt }

abbrev ghost : Process
ghost = record { pid = 70; cmdline = words broker_words; termination = ok tt }

ghost_killed : kill_ghosts 10 9 (some (pos 20)) present [] ≡ (ok tt, 30 ∷ [])
unfolding kill_ghosts
ghost_killed = refl

ghost_missed :
    kill_ghosts 10 9 (some (pos 20)) (present ++ ended ∷ ghost ∷ []) []
    ≡ (err no_such_process, 30 ∷ [])
unfolding kill_ghosts
ghost_missed = refl

yields :
    {p : Process}
    → p.cmdline ≢ gone
    → {own parent : ℕ} → {working : Option ℤ} → p.termination ≡ ok tt
    → Yields own parent working p
yields h t = (h, λ g. t)

abbrev guarded : Process
guarded = record {
  pid = 65;
  cmdline = words broker_words;
  termination = err (raised (codes "AccessDenied"));
}

kill_ghosts-denied_example :
    (ks : List ℕ) × Picks 10 9 (some (pos 20)) present ks
    × (kill_ghosts 10 9 (some (pos 20)) (present ++ guarded ∷ ghost ∷ []) []
        ≡ (err (raised (codes "AccessDenied")), ks ++ 65 ∷ []))
unfolding names_broker
kill_ghosts-denied_example =
    kill_ghosts-denied 10 9 (some (pos 20)) present guarded (ghost ∷ [])
      (raised (codes "AccessDenied"))
      (
        yields (λ e. cc) refl,
        (
          yields (λ e. cc) refl,
          (yields (λ e. cc) refl, (yields (λ e. cc) refl, (yields (λ e. cc) refl, tt))),
        ),
      )
      (record {
        not_own = λ e. omega arith;
        not_parent = λ e. omega arith;
        not_working = λ e. cc;
        readable = (broker_words, refl, refl);
      })
      refl

-- Only the package `pkg` can be imported; objects are numbers.
abbrev one_package : Imports ℕ ℕ
one_package = record {
  import_module = λ name s. (if beq name (codes "pkg") then found 1 else missing, s + 1);
  loaded = λ name s. 1;
  attribute = λ ret part s. found (ret + 1);
}

resolved : resolve_name one_package (codes "pkg.module.target") 0 ≡ (ok 3, 3)
unfolding resolve_name
resolved = refl

resolve_name-Resolution_example :
    (part : Bytes) × (rest : List Bytes) × (split (codes ".") (codes "pkg.module.target")
      ≡ part ∷ rest)
    × Resolution one_package part rest 0 (resolve_name one_package (codes "pkg.module.target") 0)
resolve_name-Resolution_example =
    resolve_name-Resolution one_package (codes "pkg.module.target") 0 (unfold contains in refl)

abbrev all_there : Files
all_there other = true
