-- ===== src/Render/Atomic/Names.antt =====
-- The names that WriteAtomic uses beside the name of its file, and files that keep what they hold.
use opencode_advance.Prelude.{
  ℕ, String, ◌≡◌, ◌≢◌, refl, sym, ap, ◌∙◌, Option, List, str_eq, eq_iff, Bool-cases, inl, inr,
  Result, All, dir_path, ◌<>◌,
}
use opencode_advance.Render.Disk.{File, Files, put, System}
use opencode_advance.Render.Atomic.{backup_name, backup_glob, orphan_backup_temp_glob}

-- What a name stands for: a temporary file of a write, a backup of a file (or what becomes one), or
-- any other file.
pub data Kind : Type 0 where
  ordinary : Kind
  temporary : Kind
  backup_of : String → Kind

-- The names of a write to `path` are told from the others by `kind`.
pub record Names (sys : System) (kind : String → Kind) (path : String) : Type 0 where
  pub plain : kind path ≡ Kind.ordinary
  pub temps : (k : ℕ) → kind (sys.temp k (dir_path path)) ≡ Kind.temporary
  pub backups : (k : ℕ) → kind (backup_name path (sys.now k)) ≡ Kind.backup_of path
  pub backup_temps : (k : ℕ) → kind (backup_name path (sys.now k) <> ".tmp") ≡ Kind.backup_of path
  pub globbed :
      (k : ℕ) (ms : List String)
      → sys.glob k (backup_glob path) ≡ Result.done ms
      → All (λ m. kind m ≡ Kind.backup_of path) ms
  pub globbed_temps :
      (k : ℕ) (ms : List String)
      → sys.glob k (orphan_backup_temp_glob path) ≡ Result.done ms
      → All (λ m. kind m ≡ Kind.backup_of path) ms

-- The files named by `K` are the same.
abbrev pub Keeps : (String → Type 0) → Files → Files → Type 0
Keeps K f g = (q : String) → K q → g q ≡ f q

pub put-ne : (p q : String) (v : Option File) (f : Files) → p ≢ q → put p v f q ≡ f q
put-ne p q v f n = elim (Bool-cases (str_eq p q)) [
  | inl e ↦ absurd (n ((eq_iff p q).0 e))
  | inr e ↦ rw e
]

pub put_self : (p : String) (v : Option File) (f : Files) → put p v f p ≡ v
put_self p v f = rw ((eq_iff p p).1 refl)

pub Keeps-put :
    (K : String → Type 0) (p : String) (v : Option File) (f g : Files)
    → ((q : String) → K q → p ≢ q)
    → Keeps K f g
    → Keeps K f (put p v g)
Keeps-put K p v f g n h q k = put-ne p q v g (n q k) ∙ h q k

pub kind-ne : (kind : String → Kind) (p q : String) (k : Kind) → kind p ≡ k → kind q ≢ k → p ≢ q
kind-ne kind p q k h n e = n (sym (ap kind e) ∙ h)
