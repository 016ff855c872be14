-- ===== src/Auth/Contexts.antt =====
-- apps/api/src/types.ts and apps/api/src/auth/ephemeral-store.ts: the context of a session, and the
-- test that it is complete. The test that the keys of an object are exactly those of its type is the
-- type itself here.
use hunsu.Base.{
  ℕ, String, Bool, true, false, ◌&&◌, not, ◌!=◌, nat_eq, ltb, Option, none, some, List, [], ◌∷◌,
}
use hunsu.Lists.{any, every}
use hunsu.Text.{is_safe_integer}

pub record GitHubUser : Type 0 where
  pub id : String
  pub login : String
  pub name : Option String
  pub avatar_url : Option String

pub data ContentsPermission : Type 0 where
  read write : ContentsPermission

pub record AuthorizedRepositoryAccess : Type 0 where
  pub repository_id : ℕ
  pub contents : ContentsPermission

pub data AccountType : Type 0 where
  organization personal : AccountType

pub record AuthorizedInstallation : Type 0 where
  pub id : ℕ
  pub account_login : String
  pub account_type : AccountType
  pub repositories : List AuthorizedRepositoryAccess

pub data Client : Type 0 where
  web mcp : Client

pub record AuthContext : Type 0 where
  pub subject : String
  pub user : GitHubUser
  pub installations : List AuthorizedInstallation
  pub selected_installation_id : Option ℕ
  pub client : Client

abbrev pub is_client : Client → Client → Bool
is_client web web = true
is_client mcp mcp = true
is_client _ _ = false

-- `Number.isSafeInteger(id) && Number(id) > 0`
abbrev pub is_positive_id : ℕ → Bool
is_positive_id id = is_safe_integer id && ltb 0 id

-- `new Set(ids).size === ids.length`
abbrev pub unique_numbers : List ℕ → Bool
unique_numbers [] = true
unique_numbers (id ∷ ids) = not (any (nat_eq id) ids) && unique_numbers ids

abbrev pub repository_ids : List AuthorizedRepositoryAccess → List ℕ
repository_ids [] = []
repository_ids (r ∷ rs) = r.repository_id ∷ repository_ids rs

abbrev pub installation_ids : List AuthorizedInstallation → List ℕ
installation_ids [] = []
installation_ids (i ∷ is) = i.id ∷ installation_ids is

unfoldable pub is_installation : AuthorizedInstallation → Bool
is_installation value =
    is_positive_id value.id
    && (value.account_login != ""
        && (every is_positive_id (repository_ids value.repositories)
            && unique_numbers (repository_ids value.repositories)))

-- The test of `selectedInstallationId`.
abbrev pub is_selectable : List AuthorizedInstallation → Option ℕ → Bool
is_selectable installations none = true
is_selectable installations (some id) =
    is_positive_id id && any (nat_eq id) (installation_ids installations)

unfoldable pub is_exact_auth_context : AuthContext → Client → Bool
unfolding is_installation
is_exact_auth_context value expected_client =
    value.subject != ""
    && (is_client value.client expected_client
        && (value.user.id != ""
            && (value.user.login != ""
                && (every is_installation value.installations
                    && (unique_numbers (installation_ids value.installations)
                        && is_selectable value.installations value.selected_installation_id)))))
