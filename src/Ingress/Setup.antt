-- ===== src/Ingress/Setup.antt =====
-- src/mattermost/ingress-queue.ts: the limits, ids and tokens that the operations read from their
-- arguments, and the naming of a queue by its scope and account.
use openclaw_mattermost_cust.Base.{
  ℕ, max, Bool, not, ◌&&◌, ◌||◌, String, ◌==◌, Option, none, some, List, [], ◌∷◌, ◌++◌, leb, eqb,
  if◌then◌else◌, Result, ok, err, ◌>>=◌,
}
use openclaw_mattermost_cust.Base.Text.{trim, or_text, every_char, is_empty}
use openclaw_mattermost_cust.Ingress.Row.{Queue}

pub data Error : Type 0 where
  empty_id bad_scope not_persisted : Error

abbrev pub default_scope : String
default_scope = "ingress"

-- The class `[a-z0-9-]`.
unfoldable pub is_scope_char : ℕ → Bool
is_scope_char c = (leb b'a' c && leb c b'z') || (leb b'0' c && leb c b'9') || eqb c b'-'

unfoldable pub normalize_queue_scope : Option String → Result Error String
unfolding is_scope_char or_text
normalize_queue_scope value =
    let scope = or_text value default_scope in
    if not (is_empty scope) && every_char is_scope_char scope then ok scope else err bad_scope

-- `number | "all"`.
pub data Limit : Type 0 where
  all : Limit
  at_most : ℕ → Limit

abbrev pub max_safe_integer : ℕ
max_safe_integer = 9007199254740991

unfoldable pub positive_limit : Option Limit → ℕ
positive_limit none = max 1 100
positive_limit (some all) = max_safe_integer
positive_limit (some (at_most n)) = max 1 n

-- `string | { id, claim? }`: an id, or a record that may hold a claim's token.
pub data IdOrClaim : Type 0 where
  an_id : String → IdOrClaim
  a_record : String → Option String → IdOrClaim

abbrev given_id : IdOrClaim → String
given_id (an_id id) = id
given_id (a_record id token) = id

unfoldable pub id_from : IdOrClaim → Result Error String
unfolding trim
id_from value = let id = trim (given_id value) in if is_empty id then err empty_id else ok id

unfoldable pub token_from : IdOrClaim → Option String
token_from (an_id id) = none
token_from (a_record id token) = token

-- The parts of the JSON array that names the queue.
unfoldable pub queue_name_parts : String → String → List String
queue_name_parts scope account =
    "mattermost-custom" ∷ ((if scope == default_scope then [] else scope ∷ []) ++ account ∷ [])

-- The naming part of `createMattermostIngressQueue`; `pid` is the text of `process.pid`.
unfoldable pub create_queue : String → Option String → String → Result Error Queue
unfolding normalize_queue_scope queue_name_parts or_text
create_queue account scope pid = do
  let account_id = or_text (some account) "default"
  name ← normalize_queue_scope scope
  ok (record { account_id = account_id; queue_name = queue_name_parts name account_id; pid = pid })
