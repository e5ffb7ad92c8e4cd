-- ===== src/Notifier/Atomic.antt =====
-- Replacing a file through a temporary one.
use habr_parser.Base.{
  ◌≡◌, ◌≢◌, refl, Bool, true, false, Option, none, some, Bytes, arith, utf8, length, length-append,
  bytes_eq, bytes_eq_iff, bytes_eq_refl, if_split, ap, sym, ◌∙◌,
}
use habr_parser.Notifier.{
  Files, set_file, Disk, on_disk, temporary_of, rename_temporary, write_opened,
  write_file_atomically,
}

-- The outcome for the reader of a path: the whole content, as far as closing the file kept it, or
-- what was there before.
abbrev pub Replaced : Disk → Bytes → Bytes → Files → Files × Bool → Type 0
Replaced disk path content files (files', true) = files' path ≡ some (on_disk content disk.lost)
Replaced disk path content files (files', false) = files' path ≡ files path

temporary_of_ne : (path : Bytes) → temporary_of path ≢ path
unfolding utf8
temporary_of_ne path e =
    let e' = ap length e in absurd (omega (arith, length-append path (utf8 ".tmp"), e'))

pub set_file_same :
    (path : Bytes) (content : Option Bytes) (files : Files)
    → set_file path content files path ≡ content
set_file_same path content files = rw (bytes_eq_refl path) refl

pub set_file_other :
    (path q : Bytes) (content : Option Bytes) (files : Files)
    → q ≢ path
    → set_file path content files q ≡ files q
set_file_other path q content files ne =
    if_split (λ o. o ≡ files q) (bytes_eq q path) (λ e. absurd (ne ((bytes_eq_iff q path).0 e)))
      (λ _. refl)

-- What a write does, as far as the readers of the paths see.
abbrev pub Effect : Disk → Bytes → Bytes → Files → Files × Bool → Type 0
Effect disk path content files r =
    Replaced disk path content files r
    × ((q : Bytes) → q ≢ path → q ≢ temporary_of path → r.0 q ≡ files q)

rename_temporary-Effect :
    (disk : Disk) (path content : Bytes) (files : Files)
    → Effect disk path content files (
        rename_temporary disk path
          (set_file (temporary_of path) (some (on_disk content disk.lost)) files))
unfolding rename_temporary
rename_temporary-Effect disk path content files =
    if_split (Effect disk path content files) disk.renames
      (λ _. (
        set_file_same path _ cleared ∙ set_file_same temporary _ files,
        λ q ne ne'. set_file_other path q _ cleared ne ∙ gone q ne',
      ))
      (λ _.
        if_split (λ fs. Effect disk path content files (fs, false)) disk.removes
          (λ _. (gone path path_ne, λ q _ ne'. gone q ne'))
          (λ _. (
            set_file_other temporary path _ files path_ne,
            λ q _ ne'. set_file_other temporary q _ files ne',
          )))
  where
    temporary : Bytes
    temporary = temporary_of path

    path_ne : path ≢ temporary
    path_ne e = temporary_of_ne path (sym e)

    stored : Files
    stored = set_file temporary (some (on_disk content disk.lost)) files

    cleared : Files
    cleared = set_file temporary none stored

    gone : (q : Bytes) → q ≢ temporary → cleared q ≡ files q
    gone q ne =
        set_file_other temporary q none stored ne
        ∙ set_file_other temporary q (some (on_disk content disk.lost)) files ne

write_opened-Effect :
    (disk : Disk) (path content : Bytes) (torn : Option Bytes) (files : Files)
    → Effect disk path content files (write_opened disk path content torn files)
write_opened-Effect disk path content none files = rename_temporary-Effect disk path content files
write_opened-Effect disk path content (some kept) files = (
  set_file_other (temporary_of path) path _ files (λ e. temporary_of_ne path (sym e)),
  λ q _ ne. set_file_other (temporary_of path) q _ files ne,
)

-- A write that does not throw puts its content at the path, short only of what closing the file
-- lost; one that throws leaves the path as it was; and no path but this and its temporary one
-- changes.
pub write_file_atomically-Effect :
    (disk : Disk) (path content : Bytes) (files : Files)
    → Effect disk path content files (write_file_atomically disk path content files)
unfolding write_file_atomically
write_file_atomically-Effect disk path content files =
    if_split (Effect disk path content files) disk.opens
      (λ _. write_opened-Effect disk path content disk.torn files) (λ _. (refl, λ q _ _. refl))

-- A disk on which a write goes through.
pub record Good (disk : Disk) : Type 0 where
  pub opens : disk.opens ≡ true
  pub whole : disk.torn ≡ none
  pub renames : disk.renames ≡ true

pub write_file_atomically-Good :
    (disk : Disk) (path content : Bytes) (files : Files)
    → Good disk
    → (write_file_atomically disk path content files).1 ≡ true
unfolding write_file_atomically rename_temporary
write_file_atomically-Good disk path content files g = rw (g.opens, g.whole) (rw g.renames refl)
