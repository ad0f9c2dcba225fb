-- ===== src/IpcFiles.antt =====
-- `register_ipc_file` and `_cleanup_ipc_files` of powerhose/util.py. The files on the disk are the
-- test that `os.path.exists` makes.
use powerhoc.Common.{
  Bool, false, ◌&&◌, ◌||◌, not, List, [], ◌∷◌, ◌++◌, Bytes, codes, beq, beq_iff, ◌≡◌, arith,
  if◌then◌else◌,
}
use powerhoc.Text.{split}

abbrev pub Files : Type 0
Files = Bytes → Bool

-- `_IPC_FILES.append(file)`
unfoldable pub register_ipc_file : Bytes → List Bytes → List Bytes
register_ipc_file file ipc_files = ipc_files ++ file ∷ []

-- `parts[-1]`; a split has a part at least
unfoldable pub last_part : List Bytes → Bytes
last_part [] = []
last_part (part ∷ []) = part
last_part (part ∷ next ∷ rest) = last_part (next ∷ rest)

-- `file.split('ipc://')[-1]`
unfoldable pub path : Bytes → Bytes
unfolding last_part split
path file = last_part (split (codes "ipc://") file)

-- `os.remove`
unfoldable pub remove : Bytes → Files → Files
remove file files other = if beq file other then false else files other

-- `_cleanup_ipc_files`
unfoldable pub cleanup_ipc_files : List Bytes → Files → Files
unfolding path remove
cleanup_ipc_files [] files = files
cleanup_ipc_files (file ∷ rest) files =
    cleanup_ipc_files rest (if files (path file) then remove (path file) files else files)

-- Whether a path is that of a registered endpoint.
unfoldable pub is_registered : List Bytes → Bytes → Bool
is_registered [] other = false
is_registered (file ∷ rest) other = beq (path file) other || is_registered rest other

removed :
    (file : Bytes) (files : Files) (other : Bytes)
    → (if files file then remove file files else files) other ≡ files other && not (beq file other)
unfolding remove
removed file files other = ground (arith, beq_iff file other)

-- At exit the files of the registered endpoints are gone, and every other file is as it was.
pub cleanup_ipc_files_lem :
    (ipc_files : List Bytes) (files : Files) (other : Bytes)
    → cleanup_ipc_files ipc_files files other ≡ files other && not (is_registered ipc_files other)
unfolding cleanup_ipc_files is_registered
cleanup_ipc_files_lem [] files other = ground arith
cleanup_ipc_files_lem (file ∷ rest) files other = ground (
  arith,
  cleanup_ipc_files_lem rest (if files (path file) then remove (path file) files else files) other,
  removed (path file) files other,
)
