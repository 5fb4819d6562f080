-- ===== src/Http/Proxy.antt =====
-- `newCollieProxy`: what is left of a request on its way to Collie.
use cf_herdr_poc.Base.{
  String, Bytes, codes, Bool, ◌&&◌, ◌||◌, [], ◌∷◌, if◌then◌else◌, str_eq, starts, contains_text,
}
use cf_herdr_poc.Http.{Request, Library, Headers}

unfoldable pub delete_header : String → Headers → Headers
delete_header name [] = []
delete_header name ((key, value) ∷ rest) =
    let later = delete_header name rest in if str_eq key name then later else (key, value) ∷ later

-- The argument is a name in lower case.
unfoldable pub is_manager_secret : Bytes → Bool
unfolding contains_text
is_manager_secret name =
    starts (codes "x-manager-") name
    && (contains_text (codes "auth") name
        || contains_text (codes "token") name
        || contains_text (codes "session") name
        || contains_text (codes "cookie") name
        || contains_text (codes "credential") name)

module _ (lib : Library) where
  unfoldable pub drop_secrets : Headers → Headers
  drop_secrets [] = []
  drop_secrets ((key, value) ∷ rest) =
      let later = drop_secrets rest in
      if is_manager_secret (lib.to_lower (codes key)) then later else (key, value) ∷ later

  abbrev strip_authorization : Bool → Headers → Headers
  strip_authorization strip headers =
      if strip then delete_header "Authorization" headers else headers

  unfoldable pub director : Bool → Request → Request
  unfolding delete_header drop_secrets
  director strip r =
      let q = lib.direct r in
      record q {
        headers = drop_secrets (
            strip_authorization strip
              (delete_header "Proxy-Authorization" (delete_header "Cookie" q.headers)));
      }
