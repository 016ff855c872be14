-- ===== src/Codec/Makers/Git.antt =====
-- packages/protocol/src/primitives.ts: objects, paths, refs and names of Git and its hosts.
use hunsu.Base.{ℕ, String, Bool, ◌&&◌, ◌||◌, not, ◌==◌, ltb, nat_eq, template, List, [], ◌∷◌}
use hunsu.Lists.{length, any, every, is_empty}
use hunsu.Text.{
  leb, codes, is_alphanumeric, is_token, is_hex, text_length, starts, starts_with, ends_with,
  has_part, ends, split,
}
use hunsu.Regex.{one_of, chain, either, optional, some_of, up_to, exactly, matches}
use hunsu.Codec.Values.{Unknown}
use hunsu.Codec.Makers.Ids.{Made, make_text, in_dashed}

-- `/^(?:[0-9a-f]{40}|[0-9a-f]{64})$/u`
unfoldable pub is_git_sha : String → Bool
is_git_sha text = matches (either (exactly 40 (one_of is_hex)) (exactly 64 (one_of is_hex))) text

-- `makeGitSha`
abbrev pub make_git_sha : Unknown → String → Made String
make_git_sha value field =
    make_text is_git_sha " must be a lowercase 40- or 64-character hexadecimal Git object SHA" value
      field

-- `/[\u0000-\u001f\u007f]/u`
abbrev is_control : ℕ → Bool
is_control c = leb c 31 || nat_eq c 127

-- A segment "", "." or "..".
abbrev is_dots : List ℕ → Bool
is_dots segment =
    is_empty segment
    || ((starts (b'.' ∷ []) segment && nat_eq (length segment) 1)
        || (starts (b'.' ∷ b'.' ∷ []) segment && nat_eq (length segment) 2))

unfoldable pub is_tree_path : String → Bool
is_tree_path text =
    not (
      nat_eq (text_length text) 0
      || (ltb 4096 (text_length text)
          || (starts_with text "/"
              || (ends_with text "/" || (has_part text "\\" || any is_control (codes text))))))
    && not (any is_dots (split b'/' text))

abbrev pub make_git_tree_path : Unknown → String → Made String
make_git_tree_path value field =
    make_text is_tree_path " must be a normalized commit-relative Git tree path" value field

-- `/[\u0000-\u0020\u007f~^:?*\[\\]/u`
abbrev is_unsafe : ℕ → Bool
is_unsafe c = leb c 32 || (nat_eq c 127 || any (nat_eq c) (codes "~^:?*[\\"))

abbrev is_ref_part : List ℕ → Bool
is_ref_part part =
    not (is_dots part) && (not (starts (b'.' ∷ []) part) && not (ends (codes ".lock") part))

-- `isValidRefName`
unfoldable pub is_valid_ref_name : String → Bool
is_valid_ref_name text =
    not (
      ltb 1024 (text_length text)
      || (ends_with text "/" || (ends_with text "." || ends_with text ".lock")))
    && (not (has_part text ".." || (has_part text "@{" || has_part text "//"))
        && (not (any is_unsafe (codes text)) && every is_ref_part (split b'/' text)))

unfoldable pub is_git_ref : String → Bool
is_git_ref text = starts_with text "refs/" && is_valid_ref_name text

abbrev pub make_git_ref : Unknown → String → Made String
make_git_ref value field =
    make_text is_git_ref " must be a fully qualified, safe Git ref" value field

unfoldable pub is_branch_name : String → Bool
is_branch_name text =
    not (starts_with text "refs/") && is_valid_ref_name (template ("refs/heads/" ∷ text ∷ []))

abbrev pub make_git_branch_name : Unknown → String → Made String
make_git_branch_name value field =
    make_text is_branch_name " must be a safe Git branch name without refs/heads/" value field

-- `/^[A-Za-z0-9](?:[A-Za-z0-9-]{0,37}[A-Za-z0-9])?$/u`
unfoldable pub is_repository_owner : String → Bool
is_repository_owner text =
    matches
      (chain (one_of is_alphanumeric)
        (optional (chain (up_to 37 (one_of in_dashed)) (one_of is_alphanumeric))))
      text

abbrev pub make_repository_owner : Unknown → Made String
make_repository_owner value =
    make_text is_repository_owner " must be a safe account or organization name" value
      "repository.owner"

abbrev in_repository_name : ℕ → Bool
in_repository_name c = is_token c || nat_eq c b'.'

-- `/^[A-Za-z0-9._-]+$/u`
unfoldable pub is_repository_name : String → Bool
is_repository_name text =
    not (ltb 100 (text_length text))
    && (matches (some_of (one_of in_repository_name)) text && not (text == "." || text == ".."))

abbrev pub make_repository_name : Unknown → Made String
make_repository_name value =
    make_text is_repository_name " must be a safe repository name" value "repository.name"
