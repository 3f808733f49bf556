-- ===== src/Supervisor/Operations/Stale.antt =====
-- CleanupStaleMetadata: when it acts, and what it leaves.
use opencode_advance.Prelude.{
  String, ◌≡◌, inl, inr, Bool, true, false, refl, Bool-cases, Option-cases, Option, none, some, ◌∷◌,
}
use opencode_advance.Supervisor.Types.{Metadata, MetaFile, World, Env, Act}
use opencode_advance.Supervisor.Operations.{remove_metadata, cleanup_file, cleanup_stale_metadata}

module _ (env : Env) where
  -- The ways in which CleanupStaleMetadata can end: whether it acted, its error, and the world after.
  pub data Cleans (w : World) (r : Bool × Option String × World) : Type 0 where
    absent : w.file ≡ MetaFile.missing → r ≡ (false, none, w) → Cleans w r
    unread : (e : String) → w.file ≡ MetaFile.unreadable e → r ≡ (false, some e, w) → Cleans w r
    live :
        (meta : Metadata)
        → w.file ≡ MetaFile.held meta
        → env.alive w.trace meta.pid ≡ true
        → r ≡ (false, none, w)
        → Cleans w r
    removed :
        (meta : Metadata)
        → w.file ≡ MetaFile.held meta
        → env.alive w.trace meta.pid ≡ false
        → r ≡ (true, none, record { file = MetaFile.missing; trace = Act.remove none ∷ w.trace })
        → Cleans w r
    not_removed :
        (meta : Metadata) (e : String)
        → w.file ≡ MetaFile.held meta
        → env.alive w.trace meta.pid ≡ false
        → r ≡ (true, some e, record { file = w.file; trace = Act.remove (some e) ∷ w.trace })
        → Cleans w r

  cleanup_file-Cleans :
      (w : World) (file : MetaFile) → w.file ≡ file → Cleans w (cleanup_file env w file)
  cleanup_file-Cleans w (MetaFile.unreadable e) f = Cleans.unread e f refl
  cleanup_file-Cleans w MetaFile.missing f = Cleans.absent f refl
  cleanup_file-Cleans w (MetaFile.held meta) f = elim (Bool-cases (env.alive w.trace meta.pid)) [
    | inl a ↦ Cleans.live meta f a (rw (a, cleanup_file) refl)
    | inr a ↦ elim (Option-cases (env.remove_error w.trace)) [
      | inl r ↦ Cleans.removed meta f a (rw (a, r, cleanup_file, remove_metadata) refl)
      | inr (e, r) ↦ Cleans.not_removed meta e f a (rw (a, r, cleanup_file, remove_metadata) refl)
    ]
  ]

  -- CleanupStaleMetadata does one of these. The metadata file is missing: it does nothing. The file
  -- cannot be read: it returns the error, and does nothing. The file names a process that is alive: it
  -- does nothing. The file names a process that is not alive: it reports stale metadata and removes
  -- the file, which is then missing; or the removal fails, and it returns that error and the file
  -- stays. The removal is the only act, and it is tried once.
  pub cleanup_stale_metadata-Cleans : (w : World) → Cleans w (cleanup_stale_metadata env w)
  unfolding cleanup_stale_metadata
  cleanup_stale_metadata-Cleans w = cleanup_file-Cleans w w.file refl
