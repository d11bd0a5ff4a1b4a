-- ===== src/Store/Files/Backup.antt =====
-- The backup file: its name, and what is read back from it.
use unleash_cpp_sdk.Base.{
  All, Bool, Text, [], ap, ap₂, arith, assign, false, length, lookup, lookup-assign, refl, some,
  suc, text_eq_refl, true, ℕ, ◌==◌, ◌||◌, ◌∷◌, ◌≡◌,
}
use unleash_cpp_sdk.Domain.Toggles.{ToggleSet, find as find_toggle}
use unleash_cpp_sdk.Json.Library.{Laws, Library}
use unleash_cpp_sdk.Json.Decode.{decode_client_features_response}
use unleash_cpp_sdk.Base.Expected.{expected}
use unleash_cpp_sdk.Json.Encode.{encode_client_features_response, encode_root}
use unleash_cpp_sdk.Json.RoundTrip.Entries.{AreEntries, decode-encode_client_features_response}
use unleash_cpp_sdk.Store.Files.{
  Access, Disk, contents, file_get, file_save, is_alnum, is_whitespace_only, safe_char, safe_name,
}

unfoldable pub is_file_char : ℕ → Bool
is_file_char c = is_alnum c || (c == b'-' || c == b'_')

safe_char-file : (c : ℕ) → is_file_char (safe_char c) ≡ true
unfolding is_file_char safe_char is_alnum
safe_char-file c = ground arith

safe_char-keeps : (c : ℕ) → is_file_char c ≡ true → safe_char c ≡ c
unfolding is_file_char safe_char is_alnum
safe_char-keeps c h = ground arith

abbrev pub IsFileName : Text → Type 0
IsFileName = All (λ c. is_file_char c ≡ true)

safe_name-keeps : (s : Text) → IsFileName s → safe_name s ≡ s
unfolding safe_name
safe_name-keeps [] h = refl
safe_name-keeps (c ∷ s) h = ap₂ (λ x y. x ∷ y) (safe_char-keeps c h.0) (safe_name-keeps s h.1)

safe_name-file : (s : Text) → IsFileName (safe_name s)
unfolding safe_name
safe_name-file [] = tt
safe_name-file (c ∷ s) = (safe_char-file c, safe_name-file s)

length-safe_name : (s : Text) → length (safe_name s) ≡ length s
unfolding safe_name
length-safe_name [] = refl
length-safe_name (c ∷ s) = ap suc (length-safe_name s)

-- A sanitised application name has letters, digits, dashes and underscores alone, so no slash or dot,
-- and as many characters as before; sanitising it again changes nothing.
pub safe_name-IsFileName :
    (s : Text)
    → IsFileName (safe_name s)
      × (length (safe_name s) ≡ length s)
      × (safe_name (safe_name s) ≡ safe_name s)
safe_name-IsFileName s =
    (safe_name-file s, length-safe_name s, safe_name-keeps (safe_name s) (safe_name-file s))

module _ (l : Library) (laws : Laws l) (os : Access) (path : Text) where
  file_save-assign :
      (s : ToggleSet) (disk : Disk)
      → os.directories ≡ true
      → os.writable ≡ true
      → file_save l os path s disk ≡ assign path (encode_client_features_response l s) disk
  unfolding file_save
  file_save-assign s disk d w = rw (d, w) (ground arith)

  lookup-assign_self : (v : Text) (disk : Disk) → lookup path (assign path v disk) ≡ some v
  lookup-assign_self v disk = rw (lookup-assign path path v disk, text_eq_refl path)

  contents-lookup : (disk : Disk) → os.readable ≡ true → contents l os path disk ≡ lookup path disk
  unfolding contents
  contents-lookup disk r = ground arith

  file_get-decoded :
      (content : Text) (s : ToggleSet) (disk : Disk)
      → os.readable ≡ true
      → lookup path disk ≡ some content
      → is_whitespace_only content ≡ false
      → decode_client_features_response l content ≡ expected s
      → file_get l os path disk ≡ some s
  unfolding file_get
  file_get-decoded [] s disk r e w d = absurd (unfold is_whitespace_only in cc)
  file_get-decoded (c ∷ content) s disk r e w d =
      rw (file_get, contents-lookup disk r, e) (rw (w, d))

  -- If the system lets the file be written and read, a saved set of toggles whose entries the decoder
  -- can make is read back, and answers every look-up as the saved one: provided that the library
  -- parses its own text, which is not white space alone.
  pub file_get-file_save :
      (s : ToggleSet) (disk : Disk)
      → (os.directories ≡ true) × (os.writable ≡ true) × (os.readable ≡ true)
      → AreEntries s.toggles
      → l.parse (encode_client_features_response l s) ≡ some (encode_root l s)
      → is_whitespace_only (encode_client_features_response l s) ≡ false
      → (s' : ToggleSet) × (file_get l os path (file_save l os path s disk) ≡ some s')
        × ((k : Text) → find_toggle k s' ≡ find_toggle k s)
  file_get-file_save s disk ok h p w =
      let (s', e, f) = decode-encode_client_features_response l laws s h p in
      (
        s',
        rw (file_save-assign s disk ok.0 ok.1) (
            file_get-decoded (encode_client_features_response l s) s' _ ok.2
              (lookup-assign_self (encode_client_features_response l s) disk) w e),
        f,
      )
