-- ===== src/Store/Files.antt =====
-- `FileStorageProvider` of storageProvider.hpp and storageProvider.cpp, on POSIX paths. The disk maps
-- the path of a file to its contents; what the operating system grants is the record `Access`.
pub mod Backup
use unleash_cpp_sdk.Base.{
  Bool, Dict, Option, Text, [], assign, codes, false, if◌then◌else◌, is_empty, is_some, leb, lookup,
  map, none, not, some, true, ℕ, ◌&&◌, ◌++◌, ◌==◌, ◌||◌, ◌∷◌,
}
use unleash_cpp_sdk.Base.Expected.{Expected, expected, unexpected}
use unleash_cpp_sdk.Domain.Toggles.{ToggleSet}
use unleash_cpp_sdk.Json.Library.{Library}
use unleash_cpp_sdk.Json.Decode.{decode_client_features_response}
use unleash_cpp_sdk.Json.Encode.{encode_client_features_response}
use unleash_cpp_sdk.Transport.Headers.{find_byte}
use unleash_cpp_sdk.Store.Provider.{Provider}

abbrev pub Disk : Type 0
Disk = Dict Text

-- Whether the parent directories are there or can be made, and whether the file opens for reading
-- (if it is there) and for writing.
pub record Access : Type 0 where
  pub directories : Bool
  pub readable : Bool
  pub writable : Bool

-- `std::isspace` in the C locale.
unfoldable pub is_space : ℕ → Bool
is_space c = c == 32 || (leb 9 c && leb c 13)

unfoldable pub is_whitespace_only : Text → Bool
unfolding is_space
is_whitespace_only [] = true
is_whitespace_only (c ∷ s) = is_space c && is_whitespace_only s

-- `std::isalnum` in the C locale.
unfoldable pub is_alnum : ℕ → Bool
is_alnum c =
    (leb b'0' c && leb c b'9') || ((leb b'A' c && leb c b'Z') || (leb b'a' c && leb c b'z'))

unfoldable pub safe_char : ℕ → ℕ
unfolding is_alnum
safe_char c = if not (is_alnum c) && (not (c == b'-') && not (c == b'_')) then b'_' else c

unfoldable pub safe_name : Text → Text
unfolding safe_char
safe_name s = map safe_char s

unfoldable pub default_backup_path : Option Text → Text
default_backup_path none = codes "."
default_backup_path (some p) = p

ends_in_slash : Text → Bool
ends_in_slash [] = false
ends_in_slash (c ∷ []) = c == b'/'
ends_in_slash (c ∷ d ∷ s) = ends_in_slash (d ∷ s)

-- `operator/` of two paths, the second of which is relative.
join_path : Text → Text → Text
unfolding ends_in_slash
join_path dir name =
    if is_empty dir then name else if ends_in_slash dir then dir ++ name else dir ++ b'/' ∷ name

unfoldable pub backup_file : Text → Text → Text
unfolding join_path safe_name
backup_file app_name backup_path =
    join_path backup_path (codes "unleash-backup-" ++ (safe_name app_name ++ codes ".json"))

-- `parent_path().empty()` is false exactly if the path has a slash.
has_parent : Text → Bool
unfolding find_byte
has_parent path = is_some (find_byte b'/' path)

module _ (l : Library) (os : Access) (path : Text) where
  decoded : Expected ToggleSet → Option ToggleSet
  decoded (expected s) = some s
  decoded (unexpected e) = none

  contents : Disk → Option Text
  contents disk = if os.readable then lookup path disk else none

  unfoldable pub file_get : Disk → Option ToggleSet
  unfolding decoded contents
  file_get disk = elim (contents disk) [
    | none ↦ none
    | some content ↦
        if is_empty content || is_whitespace_only content
        then none
        else decoded (decode_client_features_response l content)
  ]

  unfoldable pub file_save : ToggleSet → Disk → Disk
  unfolding has_parent
  file_save t disk =
      if has_parent path && not os.directories
      then disk
      else if os.writable
      then assign path (encode_client_features_response l t) disk
      else disk

  unfoldable pub file_provider : Provider Disk
  file_provider = record { get = file_get; save = file_save }
