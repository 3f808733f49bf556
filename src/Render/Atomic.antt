-- ===== src/Render/Atomic.antt =====
-- internal/render/atomic.go and internal/render/backup.go: a file is replaced by a rename, after a
-- backup of what it held; of the backups the newest are kept.
pub mod Names
pub mod Replaces
pub mod Prunes
pub mod Writes
use text.Mathlib.Text.{find?}
use Prim.Native.Char.{Char, code}
use opencode_advance.Prelude.{
  ℕ, zero, suc, ◌+◌, ◌-◌, ◌*◌, ◌^◌, ℤ, pos, negsuc, ◌-ℤ◌, ltb_ℤ, String, Bool, true, false, ◌&&◌,
  Option, none, some, List, [], ◌∷◌, map, ◌<>◌, str_eq, show, leb, ltb, length, take_bytes,
  drop_bytes, is_some, dir_path, contains_text, if◌then◌else◌, Result,
}
use opencode_advance.Render.Disk.{
  Disk, System, Reading, remove, try_call, read, write_file, rename, chmod, create_temp, tick,
}

-- func backupGlob, orphanBackupTempGlob, and the name of a new backup.
abbrev pub backup_glob : String → String
backup_glob path = path <> ".bak.*"

abbrev pub orphan_backup_temp_glob : String → String
orphan_backup_temp_glob path = path <> ".bak.*.tmp"

abbrev pub backup_name : String → ℕ → String
backup_name path now = path <> (".bak." <> show now)

-- strings.Split(s, ".bak.") with exactly two parts: the second.
abbrev after_bak : String → Option ℕ → Option String
after_bak s none = none
after_bak s (some i) =
    let rest = drop_bytes (i + 5) s in if contains_text rest ".bak." then none else some rest

digits_value : ℕ → String → Option ℕ
digits_value acc String.[] = some acc
digits_value acc (String.◌∷◌ c s) =
    let n = code c in
    let rest = digits_value (acc * 10 + (n - 48)) s in if leb 48 n && leb n 57 then rest else none

-- The number of digits is at least one.
abbrev unsigned : String → Option ℕ
unsigned String.[] = none
unsigned (String.◌∷◌ c s) = digits_value 0 (String.◌∷◌ c s)

abbrev as_positive : Option ℕ → Option ℤ
as_positive none = none
as_positive (some n) = if ltb n (2 ^ 63) then some (pos n) else none

abbrev as_negative : Option ℕ → Option ℤ
as_negative none = none
as_negative (some zero) = some (pos 0)
as_negative (some (suc n)) = if ltb n (2 ^ 63) then some (negsuc n) else none

-- strconv.ParseInt(s, 10, 64)
pub parse_int : String → Option ℤ
unfolding digits_value
parse_int String.[] = none
parse_int (String.◌∷◌ c s) =
    if str_eq (String.◌∷◌ c String.[]) "-"
    then as_negative (unsigned s)
    else if str_eq (String.◌∷◌ c String.[]) "+"
    then as_positive (unsigned s)
    else as_positive (unsigned (String.◌∷◌ c s))

abbrev parsed : Option String → Option ℤ
parsed none = none
parsed (some s) = parse_int s

-- The items of pruneBackups: the matches that are a backup's name, with the time.
abbrev put_item : String → Option ℤ → List (String × ℤ) → List (String × ℤ)
put_item m none items = items
put_item m (some epoch) items = (m, epoch) ∷ items

unfoldable pub backup_items : List String → List (String × ℤ)
backup_items [] = []
backup_items (m ∷ ms) = put_item m (parsed (after_bak m (find? m ".bak."))) (backup_items ms)

-- The newest first.
pub insert_item : String × ℤ → List (String × ℤ) → List (String × ℤ)
insert_item x [] = x ∷ []
insert_item x (y ∷ ys) = if ltb_ℤ x.1 y.1 then y ∷ insert_item x ys else x ∷ y ∷ ys

unfoldable pub newest_first : List (String × ℤ) → List (String × ℤ)
newest_first [] = []
newest_first (x ∷ xs) = insert_item x (newest_first xs)

abbrev pub after_first {ℓ} : {A : Type ℓ} → ℕ → List A → List A
after_first zero xs = xs
after_first (suc n) [] = []
after_first (suc n) (x ∷ xs) = after_first n xs

-- What pruneBackups removes, of the matches.
unfoldable pub victims : ℤ → List String → List String
victims (negsuc n) ms = ms
victims (pos zero) ms = ms
victims (pos (suc n)) ms =
    map (λ (item : String × ℤ). item.0) (after_first (suc n) (newest_first (backup_items ms)))

abbrev pub is_positive : ℤ → Bool
is_positive n = ltb_ℤ (pos 0) n

-- What WriteAtomic returns, and the disk after it.
pub record Write : Type 0 where
  pub backup : String
  pub failure : Option String
  pub disk : Disk

abbrev pub failed : String → String → Disk → Write
failed backup e d = record { backup = backup; failure = some e; disk = d }

abbrev pub wrote : String → Disk → Write
wrote backup d = record { backup = backup; failure = none; disk = d }

-- `if err := …; err != nil { return backup, err }`
abbrev pub or_fail : Option String × Disk → String → (Disk → Write) → Write
or_fail (some e, d) backup next = failed backup e d
or_fail (none, d) backup next = next d

abbrev first_error : Option String → String → Option String → Option String
first_error (some first) p e = some first
first_error none p none = none
first_error none p (some e) = some ("remove " <> p <> ": " <> e)

abbrev pub labelled : String → Option String × Disk → Option String × Disk
labelled label (none, d) = (none, d)
labelled label (some e, d) = (some (label <> ": " <> e), tick d)

module _ (sys : System) where
  -- func removeAll; `first` is the error so far.
  unfoldable pub remove_all : List String → Option String → Disk → Option String × Disk
  remove_all [] first d = (first, d)
  remove_all (p ∷ ps) first d =
      let (e, after) = remove sys p d in remove_all ps (first_error first p e) after

  abbrev pub remove_matches : ℤ → Result (List String) → Disk → Option String × Disk
  remove_matches keep (Result.fail e) d = (some e, d)
  remove_matches keep (Result.done ms) d = remove_all (victims keep ms) none d

  -- func cleanupOrphanBackupTemps
  unfoldable pub cleanup_orphan_backup_temps : String → Disk → Option String × Disk
  cleanup_orphan_backup_temps path d =
      remove_matches (pos 0) (sys.glob d.calls (orphan_backup_temp_glob path)) (tick d)

  -- func pruneBackups
  unfoldable pub prune_backups : String → ℤ → Disk → Option String × Disk
  prune_backups path keep d = remove_matches keep (sys.glob d.calls (backup_glob path)) (tick d)

  -- The deferred removal of the temporary file.
  abbrev pub discard : String → Write → Write
  discard tmp r = record r { disk = (remove sys tmp r.disk).1 }

  -- WriteAtomic, from the temporary file on: from the last step to the first.
  abbrev pub install : String → String → String → Disk → Write
  install path tmp backup d = or_fail (rename sys tmp path d) backup (wrote backup)

  abbrev pub set_mode : String → ℕ → String → String → Disk → Write
  set_mode path mode tmp backup d = or_fail (chmod sys tmp mode d) backup (install path tmp backup)

  abbrev pub close_temp : String → ℕ → String → String → Disk → Write
  close_temp path mode tmp backup d =
      or_fail (try_call sys d) backup (set_mode path mode tmp backup)

  unfoldable pub fill_temp : String → String → ℕ → String → String → Disk → Write
  fill_temp path content mode backup tmp d =
      or_fail (labelled ("write temp " <> tmp) (write_file sys tmp content 0 d)) backup
        (close_temp path mode tmp backup)

  abbrev pub with_temp : String → String → ℕ → String → Result String × Disk → Write
  with_temp path content mode backup (Result.fail e, d) = failed backup e d
  with_temp path content mode backup (Result.done tmp, d) =
      discard tmp (fill_temp path content mode backup tmp d)

  unfoldable pub replace : String → String → ℕ → String → Disk → Write
  replace path content mode backup d =
      with_temp path content mode backup (create_temp sys (dir_path path) d)

  abbrev pub name_backup : String → String → ℕ → String → Disk → Write
  name_backup path content mode backup d =
      or_fail (rename sys (backup <> ".tmp") backup d) "" (replace path content mode backup)

  -- The backup of what is there, then the rest.
  unfoldable pub back_up : String → String → ℕ → String → Disk → Write
  back_up path content mode existing d =
      let backup = backup_name path (sys.now d.calls) in
      or_fail (write_file sys (backup <> ".tmp") existing mode d) ""
        (name_backup path content mode backup)

  abbrev pub after_reading : String → String → ℕ → ℤ → Reading × Disk → Write
  after_reading path content mode max (Reading.broken e, d) = failed "" e d
  after_reading path content mode max (Reading.missing, d) = replace path content mode "" d
  after_reading path content mode max (Reading.found existing, d) =
      if str_eq existing content
      then wrote "" d
      else if is_positive max
      then or_fail (prune_backups path (max -ℤ pos 1) d) "" (back_up path content mode existing)
      else replace path content mode "" d

  -- func WriteAtomic
  unfoldable pub write_atomic : String → String → ℕ → ℤ → Disk → Write
  write_atomic path content mode max d =
      or_fail (cleanup_orphan_backup_temps path d) ""
        λ d. or_fail (try_call sys d) "" λ d. after_reading path content mode max (read sys path d)
