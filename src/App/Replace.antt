-- ===== src/App/Replace.antt =====
-- app/src/atomic_file_replace.hpp: `ReplaceWithTemporaryFile` on the three files it touches. What the
-- file system does with a call is an argument: each call may fail, and a rename onto a file that
-- exists may be refused.
use booster_nx.Common.{
  ◌≡◌, ◌⊎◌, refl, Bool, true, false, not, ◌&&◌, ◌||◌, Option, none, some, List, ℕ, arith,
  Bool-cases, inl, inr, if◌then◌else◌,
}

pub record Disk : Type 0 where
  pub temporary : Option (List ℕ)
  pub destination : Option (List ℕ)
  pub backup : Option (List ℕ)

-- Whether each call fails, and whether a rename may replace a file.
pub record FileSystem : Type 0 where
  pub replaces : Bool
  pub remove_old_backup_fails : Bool
  pub install_fails : Bool
  pub set_aside_fails : Bool
  pub second_install_fails : Bool
  pub remove_backup_fails : Bool
  pub restore_fails : Bool
  pub remove_temporary_fails : Bool

abbrev pub exists : Option (List ℕ) → Bool
exists none = false
exists (some content) = true

-- `std::rename(...) == 0`.
abbrev pub can_rename : FileSystem → Bool → Option (List ℕ) → Option (List ℕ) → Bool
can_rename fs fails from onto = not fails && (exists from && (fs.replaces || not (exists onto)))

abbrev pub unless : Bool → Option (List ℕ) → Option (List ℕ)
unless fails content = if fails then content else none

abbrev pub drop_temporary : FileSystem → Disk → Disk
drop_temporary fs d = record d { temporary = unless fs.remove_temporary_fails d.temporary }

abbrev pub install : Disk → Disk
install d = record d { destination = d.temporary; temporary = none }

abbrev pub set_aside : Disk → Disk
set_aside d = record d { backup = d.destination; destination = none }

abbrev pub restore : FileSystem → Disk → Disk
restore fs d =
    if can_rename fs fs.restore_fails d.backup d.destination
    then record d { destination = d.backup; backup = none }
    else d

-- With the old file out of the way.
abbrev pub install_again : FileSystem → Disk → Disk × Bool
install_again fs d =
    if can_rename fs fs.second_install_fails d.temporary d.destination
    then (record (install d) { backup = unless fs.remove_backup_fails d.backup }, true)
    else (drop_temporary fs (restore fs d), false)

abbrev pub try_install : FileSystem → Disk → Disk × Bool
try_install fs d =
    if can_rename fs fs.install_fails d.temporary d.destination
    then (install d, true)
    else (if can_rename fs fs.set_aside_fails d.destination d.backup
        then install_again fs (set_aside d)
        else (drop_temporary fs d, false))

unfoldable pub replace_with_temporary_file : FileSystem → Disk → Disk × Bool
replace_with_temporary_file fs d =
    try_install fs (record d { backup = unless fs.remove_old_backup_fails d.backup })

-- On success the new content is in place; on failure the old content is in place or in the backup.
abbrev pub Replaces : Disk → Disk × Bool → Type 0
Replaces d (e, true) = (e.destination ≡ d.temporary) × (exists e.destination ≡ true)
Replaces d (e, false) =
    (e.destination ≡ d.destination) ⊎ ((e.destination ≡ none) × (e.backup ≡ d.destination))

install_again-Replaces : (fs : FileSystem) (d : Disk) → Replaces d (install_again fs (set_aside d))
install_again-Replaces fs d =
    elim (Bool-cases (can_rename fs fs.second_install_fails d.temporary none)) [
      | inl e ↦ rw e (refl, ground (arith, e))
      | inr e ↦ rw e (elim (Bool-cases (can_rename fs fs.restore_fails d.destination none)) [
        | inl f ↦ rw f (inl refl)
        | inr f ↦ rw f (inr (refl, refl))
      ])
    ]

-- Whatever calls fail, success means that the destination holds what the temporary file held, and
-- failure that the old content is at the destination, or in the backup with nothing at the destination.
pub replace_with_temporary_file-Replaces :
    (fs : FileSystem) (d : Disk) → Replaces d (replace_with_temporary_file fs d)
unfolding replace_with_temporary_file
replace_with_temporary_file-Replaces fs d =
    elim (Bool-cases (can_rename fs fs.install_fails d.temporary d.destination)) [
      | inl e ↦ rw e (refl, ground (arith, e))
      | inr e ↦
          rw e
            (elim (Bool-cases (
              can_rename fs fs.set_aside_fails d.destination
                (unless fs.remove_old_backup_fails d.backup))) [
                  | inl f ↦ rw f (
                      install_again-Replaces fs
                        (record d { backup = unless fs.remove_old_backup_fails d.backup }))
                  | inr f ↦ rw f (inl refl)
                ])
    ]
