-- ===== src/Ghosts/Kills.antt =====
-- Which processes are terminated.
use powerhoc.Common.{
  ℕ, true, false, ◌||◌, List, [], ◌∷◌, ◌++◌, append_assoc, append-nil, Option, none, some, Bytes,
  ◌==◌, ◌≡◌, ◌≢◌, refl, ◌∙◌, sym, arith, All, ◌⊎◌, inl, inr, Bool-cases,
}
use powerhoc.Client.{same_int_iff}
use powerhoc.Exc.{Exn, ok, err}
use powerhoc.Ghosts.{
  CommandLine, words, access_denied, gone, Process, names_broker, is_working, is_ghost, kill_ghosts,
}
use powerhoc.Text.Decimal.{ℤ, pos}

-- A process that may be terminated: another one than this process and its parent, whose command
-- line names a broker, and not the broker that answered.
pub record IsGhost (own_pid parent_pid : ℕ) (working : Option ℤ) (p : Process) : Type 0 where
  pub not_own : p.pid ≢ own_pid
  pub not_parent : p.pid ≢ parent_pid
  pub not_working : working ≢ some (pos p.pid)
  pub readable : (cmd : List Bytes) × (p.cmdline ≡ words cmd) × (names_broker cmd ≡ true)

is_working_sound :
    (working : Option ℤ) (pid : ℕ) → is_working working pid ≡ false → working ≢ some (pos pid)
unfolding is_working
is_working_sound none pid h = λ e. cc
is_working_sound (some broker) pid h = λ e. ground (arith, same_int_iff (pos pid) broker)

working_found :
    (working : Option ℤ) (pid : ℕ) → is_working working pid ≡ true → working ≡ some (pos pid)
unfolding is_working
working_found none pid h = cc
working_found (some broker) pid h = ground (arith, same_int_iff (pos pid) broker)

module _ (own_pid parent_pid : ℕ) (working : Option ℤ) where
  -- The command line of `IsGhost` and the test of the loop.
  readable_words :
      (p : Process) (cmd : List Bytes)
      → p.cmdline ≡ words cmd
      → IsGhost own_pid parent_pid working p
      → names_broker cmd ≡ true
  readable_words p cmd e g = let (cmd', f, n) = g.readable in rw (same (sym f ∙ e)) at n
    where
      same : {a b : List Bytes} → words a ≡ words b → a ≡ b
      same q = cc

  abbrev Judged : Process → Type 0
  Judged p =
      (is_ghost own_pid parent_pid working p ≡ ok false) × (¬ IsGhost own_pid parent_pid working p)
      ⊎ (is_ghost own_pid parent_pid working p ≡ ok true) × IsGhost own_pid parent_pid working p

  Judged-words : (p : Process) (cmd : List Bytes) → p.cmdline ≡ words cmd → Judged p
  unfolding is_ghost
  Judged-words p cmd e = elim (Bool-cases (p.pid == own_pid || p.pid == parent_pid)) [
    | inl own ↦ inl (ground arith, λ g. ground (arith, g.not_own, g.not_parent))
    | inr other ↦ elim (Bool-cases (names_broker cmd)) [
      | inr n ↦ inl (ground arith, λ g. cc (readable_words p cmd e g, n))
      | inl n ↦ elim (Bool-cases (is_working working p.pid)) [
        | inl w ↦ inl (ground arith, λ g. g.not_working (working_found working p.pid w))
        | inr w ↦ inr (
          ground arith,
          record {
            not_own = ground arith;
            not_parent = ground arith;
            not_working = is_working_sound working p.pid w;
            readable = (cmd, e, n);
          },
        )
      ]
    ]
  ]

  judged : (p : Process) (c : CommandLine) → p.cmdline ≡ c → c ≢ gone → Judged p
  judged p gone e h = absurd (h refl)
  judged p access_denied e h = inl (unfold is_ghost in ground arith, λ g. cc (g.readable.1, e))
  judged p (words cmd) e h = Judged-words p cmd e

  ghost_found :
      (p : Process)
      → IsGhost own_pid parent_pid working p
      → is_ghost own_pid parent_pid working p ≡ ok true
  ghost_found p g =
      let (cmd, e, n) = g.readable in
      elim (judged p (words cmd) e (λ q. cc)) [
        | inl (_, spared) ↦ absurd (spared g)
        | inr (q, _) ↦ q
      ]

  -- The pids of the ghosts among some processes, in order, and of no other.
  pub data Picks : List Process → List ℕ → Type 0 where
    no_more : Picks [] []
    kill :
        {p : Process} {ps : List Process} {ks : List ℕ}
        → IsGhost own_pid parent_pid working p
        → Picks ps ks
        → Picks (p ∷ ps) (p.pid ∷ ks)
    spare :
        {p : Process} {ps : List Process} {ks : List ℕ}
        → ¬ IsGhost own_pid parent_pid working p
        → Picks ps ks
        → Picks (p ∷ ps) ks

  -- A process that is still there, and can be terminated if it is a ghost.
  abbrev pub Yields : Process → Type 0
  Yields p = (p.cmdline ≢ gone) × (IsGhost own_pid parent_pid working p → p.termination ≡ ok tt)

  spare_step :
      (p : Process) (rest : List Process) (killed : List ℕ)
      → is_ghost own_pid parent_pid working p ≡ ok false
      → kill_ghosts own_pid parent_pid working (p ∷ rest) killed
        ≡ kill_ghosts own_pid parent_pid working rest killed
  unfolding kill_ghosts
  spare_step p rest killed e = rw (e, kill_ghosts)

  kill_step :
      (p : Process) (rest : List Process) (killed : List ℕ)
      → is_ghost own_pid parent_pid working p ≡ ok true
      → p.termination ≡ ok tt
      → kill_ghosts own_pid parent_pid working (p ∷ rest) killed
        ≡ kill_ghosts own_pid parent_pid working rest (killed ++ p.pid ∷ [])
  unfolding kill_ghosts
  kill_step p rest killed e t = rw (e, kill_ghosts) (rw t)

  denied_step :
      (p : Process) (rest : List Process) (killed : List ℕ) (x : Exn)
      → is_ghost own_pid parent_pid working p ≡ ok true
      → p.termination ≡ err x
      → kill_ghosts own_pid parent_pid working (p ∷ rest) killed ≡ (err x, killed ++ p.pid ∷ [])
  unfolding kill_ghosts
  denied_step p rest killed x e t = rw (e, kill_ghosts) (rw t)

  kills_then :
      (ps rest : List Process) (killed : List ℕ)
      → All Yields ps
      → (ks : List ℕ) × Picks ps ks
        × (kill_ghosts own_pid parent_pid working (ps ++ rest) killed
            ≡ kill_ghosts own_pid parent_pid working rest (killed ++ ks))
  kills_then [] rest killed h = ([], no_more, rw append-nil refl)
  kills_then (p ∷ ps) rest killed ((h, yields), hs) = elim (judged p p.cmdline refl h) [
    | inl (e, n) ↦
        let (ks, picks, q) = kills_then ps rest killed hs in
        (ks, spare n picks, spare_step p (ps ++ rest) killed e ∙ q)
    | inr (e, g) ↦
        let (ks, picks, q) = kills_then ps rest (killed ++ p.pid ∷ []) hs in
        (
          p.pid ∷ ks,
          kill g picks,
          kill_step p (ps ++ rest) killed e (yields g) ∙ q ∙ rw append_assoc refl,
        )
  ]

  -- A ghost whose termination raises ends the purge with that exception, if those in front of it are
  -- still there and the ghosts among them can be terminated: these are, and the ghosts listed behind
  -- it are not, and its own pid has been noted as killed.
  pub kill_ghosts-denied :
      (ps : List Process) (p : Process) (rest : List Process) (x : Exn)
      → All Yields ps
      → IsGhost own_pid parent_pid working p
      → p.termination ≡ err x
      → (ks : List ℕ) × Picks ps ks
        × (kill_ghosts own_pid parent_pid working (ps ++ p ∷ rest) [] ≡ (err x, ks ++ p.pid ∷ []))
  kill_ghosts-denied ps p rest x h g t =
      let (ks, picks, e) = kills_then ps (p ∷ rest) [] h in
      (ks, picks, e ∙ denied_step p rest ks x (ghost_found p g) t)
