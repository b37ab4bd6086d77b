-- ===== src/Endpoint/Directory.antt =====
-- The names of sarena-data-plane/src/endpoint/directory.rs: each endpoint has up to four state
-- directories. A file name is the list of its bytes.
pub mod Names
pub mod Files
pub mod Synchronize
pub mod Restore
pub mod Order
pub mod Outcomes
pub mod Samples
mod Tests
use sarena.Prelude.{
  ℕ, zero, suc, ◌+◌, ◌-◌, ◌*◌, ◌/◌, ◌%◌, Bool, true, false, ◌&&◌, ◌||◌, Option, none, some, List,
  [], ◌∷◌, ◌++◌, ltb, leb, ◌==◌, if◌then◌else◌, Eq, ◌=?◌, nat_eq,
}
use sarena.Endpoint.IdAllocator.{EndpointId, min_id, max_id}

abbrev pub FileName : Type 0
FileName = List ℕ

-- `PartialEq` of byte strings.
unfoldable pub same_bytes : FileName → FileName → Bool
same_bytes [] [] = true
same_bytes [] (y ∷ ys) = false
same_bytes (x ∷ xs) [] = false
same_bytes (x ∷ xs) (y ∷ ys) = x == y && same_bytes xs ys

-- The decimal text of a `u16`, which has five digits at most.
unfoldable pub digits : ℕ → ℕ → FileName
digits zero n = []
digits (suc fuel) n =
    let more = digits fuel (n / 10) in
    if ltb n 10 then (b'0' + n) ∷ [] else more ++ (b'0' + n % 10) ∷ []

-- `Display` of an `EndpointId`.
unfoldable pub id_text : EndpointId → FileName
unfolding digits
id_text id = digits 5 id

-- The digits of `u16::from_str`: a value above `u16::MAX` or a byte that is no digit is an error.
unfoldable pub scan_digits : ℕ → FileName → Option ℕ
scan_digits n [] = some n
scan_digits n (c ∷ text) =
    let rest = scan_digits (n * 10 + (c - b'0')) text in
    if leb b'0' c && leb c b'9' && leb (n * 10 + (c - b'0')) 65535 then rest else none

abbrev skip_plus : FileName → FileName
skip_plus [] = []
skip_plus (c ∷ []) = c ∷ []
skip_plus (c ∷ d ∷ text) = if c == b'+' then d ∷ text else c ∷ d ∷ text

-- `EndpointId::from_str`: one leading plus sign is allowed, an empty text is an error.
unfoldable pub parse_id : FileName → Option EndpointId
unfolding scan_digits
parse_id [] = none
parse_id (c ∷ text) = scan_digits 0 (skip_plus (c ∷ text))

-- In the order of the restore preference.
pub data DirKind : Type 0 where
  current next backup next_failed : DirKind

abbrev pub next_suffix : FileName
next_suffix = b'_' ∷ b'n' ∷ b'e' ∷ b'x' ∷ b't' ∷ []

abbrev pub next_failed_suffix : FileName
next_failed_suffix = b'_' ∷ b'n' ∷ b'e' ∷ b'x' ∷ b't' ∷ b'_' ∷ b'f' ∷ b'a' ∷ b'i' ∷ b'l' ∷ []

abbrev pub backup_suffix : FileName
backup_suffix = b'_' ∷ b's' ∷ b't' ∷ b'a' ∷ b'l' ∷ b'e' ∷ []

abbrev pub suffix_of : DirKind → FileName
suffix_of current = []
suffix_of next = next_suffix
suffix_of backup = backup_suffix
suffix_of next_failed = next_failed_suffix

-- `state_directory_path`, `next_directory_path`, `backup_directory_path` and
-- `failed_directory_path`, below the state directory.
unfoldable pub directory_path : EndpointId → DirKind → FileName
directory_path id kind = id_text id ++ suffix_of kind

-- `strip_suffix`.
unfoldable pub strip_suffix : FileName → FileName → Option FileName
unfolding same_bytes
strip_suffix suffix [] = if same_bytes [] suffix then some [] else none
strip_suffix suffix (c ∷ name) =
    let rest = strip_suffix suffix name in
    if same_bytes (c ∷ name) suffix
    then some []
    else elim rest [ none ↦ none | some base ↦ some (c ∷ base) ]

abbrev pub if_stripped : Option FileName → DirKind → FileName × DirKind → FileName × DirKind
if_stripped none kind other = other
if_stripped (some base) kind other = (base, kind)

-- The chain of `if let Some(base) = name.strip_suffix(…)`.
unfoldable pub split_name : FileName → FileName × DirKind
unfolding strip_suffix
split_name name = if_stripped (strip_suffix next_failed_suffix name) next_failed (
    if_stripped (strip_suffix next_suffix name) next
      (if_stripped (strip_suffix backup_suffix name) backup (name, current)))

abbrev pub checked_id : FileName × DirKind → Option EndpointId → Option (EndpointId × DirKind)
checked_id (base, kind) none = none
checked_id (base, kind) (some id) =
    if same_bytes (id_text id) base && leb min_id id && leb id max_id then some (id, kind) else none

unfoldable pub parse_dir_name : FileName → Option (EndpointId × DirKind)
parse_dir_name name = let parts = split_name name in checked_id parts (parse_id parts.0)
