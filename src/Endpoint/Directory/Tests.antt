-- ===== src/Endpoint/Directory/Tests.antt =====
-- Test data for the state directories, runs of their calls, and instances of the theorems.
use sarena.Prelude.{
  ◌≡◌, ◌≢◌, ◌↔◌, ◌⊎◌, refl, ◌≤◌, true, none, some, List, [], ◌∷◌, ◌==◌, if◌then◌else◌,
}
use sarena.Prelude.Map.{get, insert, remove}
use sarena.Endpoint.Error.{ok}
use sarena.Endpoint.IdAllocator.{min_id, max_id}
use sarena.Endpoint.Directory.Order.{has}
use sarena.Endpoint.Directory.{
  DirKind, id_text, parse_id, same_bytes, split_name, current, next, backup, next_failed,
  directory_path, parse_dir_name,
}
use sarena.Endpoint.Directory.Names.{parse_dir_name_iff}
use sarena.Endpoint.Directory.Samples.{marked, holding, calm_env, seven, seven_next, two_states}
use sarena.Endpoint.Directory.Files.{name_eq, Environment, stored, synchronize_directories}
use sarena.Endpoint.Directory.Restore.{Candidate, check_id, restore_endpoint}
use sarena.Endpoint.Directory.Outcomes.{
  usable, Lists, preferred, restore_endpoint-preferred, restore_endpoint-synchronize_directories,
}

-- The move of the next directory is refused, and so is the roll-back.
abbrev refusing_env : Environment
refusing_env = record {
  fault = λ n. if n == 2 then some "refused" else if n == 3 then some "refused" else none;
  partly = λ n d. d;
}

parsed : parse_dir_name seven_next ≡ some (7, next)
unfolding parse_dir_name split_name parse_id id_text same_bytes
parsed = refl

leading_zero : parse_dir_name (b'0' ∷ b'7' ∷ []) ≡ none
unfolding parse_dir_name split_name parse_id id_text same_bytes
leading_zero = refl

too_large : parse_dir_name (b'4' ∷ b'0' ∷ b'9' ∷ b'6' ∷ []) ≡ none
unfolding parse_dir_name split_name parse_id id_text same_bytes
too_large = refl

committed :
    get seven (synchronize_directories calm_env 7 two_states).0.dirs ≡ some (holding (marked 2))
unfolding synchronize_directories directory_path id_text same_bytes get insert remove
committed = refl

parse_dir_name_iff_example :
    (parse_dir_name seven_next ≡ some (7, next))
    ↔ ((seven_next ≡ directory_path 7 next) × (min_id ≤ 7) × (7 ≤ max_id))
parse_dir_name_iff_example = parse_dir_name_iff seven_next 7 next

abbrev listed : List Candidate
listed = (next, directory_path 7 next) ∷ (current, directory_path 7 current) ∷ []

listed_all :
    (kind : DirKind) → get (directory_path 7 kind) two_states.dirs ≢ none → has kind listed ≡ true
unfolding directory_path id_text same_bytes get
listed_all current h = refl
listed_all next h = refl
listed_all backup h = absurd (h refl)
listed_all next_failed h = absurd (h refl)

listed-Lists : Lists 7 two_states listed
listed-Lists = record { named = (refl, (refl, tt)); complete = listed_all }

-- After the refused synchronisation the old state is the backup.
abbrev left : List Candidate
left = (backup, directory_path 7 backup) ∷ (next, directory_path 7 next) ∷ []

left_all :
    (kind : DirKind)
    → get (directory_path 7 kind) (synchronize_directories refusing_env 7 two_states).0.dirs ≢ none
    → has kind left ≡ true
unfolding synchronize_directories directory_path id_text same_bytes get insert remove
left_all current h = absurd (h refl)
left_all next h = refl
left_all backup h = refl
left_all next_failed h = absurd (h refl)

left-Lists : Lists 7 (synchronize_directories refusing_env 7 two_states).0 left
left-Lists = record { named = (refl, (refl, tt)); complete = left_all }

usable_old : usable 7 current two_states ≡ some (marked 1)
unfolding directory_path id_text same_bytes get stored check_id
usable_old = refl

usable_new : usable 7 next two_states ≡ some (marked 2)
unfolding directory_path id_text same_bytes get stored check_id
usable_new = refl

restore_endpoint-synchronize_directories_example :
    (((restore_endpoint calm_env 7 left (synchronize_directories refusing_env 7 two_states).0).1
        ≡ some (marked 1))
      ⊎ ((restore_endpoint calm_env 7 left (synchronize_directories refusing_env 7 two_states).0).1
          ≡ some (marked 2)))
    × ((synchronize_directories refusing_env 7 two_states).1 ≡ ok tt
        → (restore_endpoint calm_env 7 left (synchronize_directories refusing_env 7 two_states).0).1
          ≡ some (marked 2))
restore_endpoint-synchronize_directories_example =
    restore_endpoint-synchronize_directories refusing_env calm_env (λ n. refl) 7 two_states
      (marked 1) (marked 2) usable_old usable_new left left-Lists

restore_endpoint-preferred_example :
    (restore_endpoint calm_env 7 listed two_states).1 ≡ preferred 7 two_states
restore_endpoint-preferred_example =
    restore_endpoint-preferred calm_env (λ n. refl) 7 listed two_states listed-Lists
