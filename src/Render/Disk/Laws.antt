-- ===== src/Render/Disk/Laws.antt =====
-- What each call does, by the answer of the system.
use opencode_advance.Prelude.{ℕ, String, ◌≡◌, Option, none, some, Result}
use opencode_advance.Render.Disk.{
  File, Disk, System, Reading, set_file, tick, reading, mode_of, with_mode, moved, remove, try_call,
  read, write_file, rename, chmod, create_temp,
}

module _ (sys : System) (d : Disk) where
  module _ (e : String) (h : sys.error d.calls ≡ some e) where
    pub remove-fail : (p : String) → remove sys p d ≡ (some e, tick d)
    unfolding remove
    remove-fail p = rw (h, remove)

    pub try_call-fail : try_call sys d ≡ (some e, tick d)
    unfolding try_call
    try_call-fail = rw (h, try_call)

    pub read-fail : (p : String) → read sys p d ≡ (Reading.broken e, tick d)
    unfolding read
    read-fail p = rw (h, read)

    pub write_file-fail :
        (p content : String) (mode : ℕ)
        → write_file sys p content mode d ≡ (some e, set_file p (sys.torn d.calls) d)
    unfolding write_file
    write_file-fail p content mode = rw (h, write_file)

    pub rename-fail : (from to : String) → rename sys from to d ≡ (some e, tick d)
    unfolding rename
    rename-fail from to = rw (h, rename)

    pub chmod-fail : (p : String) (mode : ℕ) → chmod sys p mode d ≡ (some e, tick d)
    unfolding chmod
    chmod-fail p mode = rw (h, chmod)

    pub create_temp-fail : (dir : String) → create_temp sys dir d ≡ (Result.fail e, tick d)
    unfolding create_temp
    create_temp-fail dir = rw (h, create_temp)

  module _ (h : sys.error d.calls ≡ none) where
    pub remove-done : (p : String) → remove sys p d ≡ (none, set_file p none d)
    unfolding remove
    remove-done p = rw (h, remove)

    pub try_call-done : try_call sys d ≡ (none, tick d)
    unfolding try_call
    try_call-done = rw (h, try_call)

    pub read-done : (p : String) → read sys p d ≡ (reading (d.files p), tick d)
    unfolding read
    read-done p = rw (h, read)

    pub write_file-done :
        (p content : String) (mode : ℕ)
        → write_file sys p content mode d ≡ (
          none,
          set_file p (some (record { content = content; mode = mode_of (d.files p) mode })) d,
        )
    unfolding write_file
    write_file-done p content mode = rw (h, write_file)

    pub rename-done :
        (from to : String) (v : Option File)
        → d.files from ≡ v
        → rename sys from to d ≡ moved from to d v
    unfolding rename
    rename-done from to v z = rw (h, z, rename)

    pub chmod-done :
        (p : String) (mode : ℕ)
        → chmod sys p mode d ≡ (none, set_file p (with_mode mode (d.files p)) d)
    unfolding chmod
    chmod-done p mode = rw (h, chmod)

    pub create_temp-done :
        (dir : String)
        → create_temp sys dir d ≡ (
          Result.done (sys.temp d.calls dir),
          set_file (sys.temp d.calls dir) (some (record { content = ""; mode = 384 })) d,
        )
    unfolding create_temp
    create_temp-done dir = rw (h, create_temp)
