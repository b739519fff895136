-- ===== src/Slash/Requests.antt =====
-- src/mattermost/slash-commands.ts: the commands of a team, the requests that change them, and the
-- selections of `registerSlashCommands`. A computation passes on the list of the requests sent.
use Prim.Native.Char.{code}
use Prim.Native.String.{[], ◌∷◌}
use openclaw_mattermost_cust.Base.{
  ℕ, ◌+◌, Bool, true, false, not, ◌&&◌, ◌||◌, String, ◌==◌, Option, none, some, List, [], ◌∷◌, ◌++◌,
  any, or_else, leb, ltb, if◌then◌else◌, Result, ok, err,
}
use openclaw_mattermost_cust.Base.Text.{trim}

pub record Command : Type 0 where
  pub id : String
  pub trigger : String
  pub method : String
  pub url : String
  pub token : String
  pub creator_id : Option String

pub record Spec : Type 0 where
  pub trigger : String
  pub fallback_trigger : Option String
  pub description : String
  pub auto_complete : Bool
  pub auto_complete_hint : Option String

pub record Registered : Type 0 where
  pub id : String
  pub trigger : String
  pub team_id : String
  pub token : String
  pub url : String
  pub managed : Bool

-- What is written to a command: the method is always the POST one.
pub record Settings : Type 0 where
  pub team_id : String
  pub trigger : String
  pub method : String
  pub url : String
  pub description : String
  pub auto_complete : Bool
  pub auto_complete_hint : Option String

pub data Request : Type 0 where
  reads : String → Request
  creates : Settings → Request
  updates : String → Settings → Request
  deletes : String → Request

-- `throws` is any error of a request; the other two are raised by this code.
pub data Failure : Type 0 where
  throws no_creator aborted : Failure

abbrev pub Server : Type 0
Server = List Request → Request → Result Failure Command

-- The requests so far, and what the code returns or throws after them.
abbrev pub M : Type 0 → Type 0
M A = List Request → Result Failure A × List Request

abbrev pub continue :
    {A B : Type 0} → Result Failure A × List Request → (A → M B) → Result Failure B × List Request
continue (ok a, later) f = f a later
continue (err e, later) f = (err e, later)

infixl 5 ◌>>=◌
abbrev pub ◌>>=◌ : {A B : Type 0} → M A → (A → M B) → M B
◌>>=◌ m f sent = continue (m sent) f

abbrev pub pure : {A : Type 0} → A → M A
pure a sent = (ok a, sent)

abbrev pub throw : {A : Type 0} → Failure → M A
throw e sent = (err e, sent)

abbrev pub post_method : String
post_method = "P"

-- `Buffer.byteLength` of a character in UTF-8.
abbrev pub char_bytes : ℕ → ℕ
char_bytes c = if ltb c 0x80 then 1 else if ltb c 0x800 then 2 else if ltb c 0x10000 then 3 else 4

unfoldable pub byte_length : String → ℕ
byte_length [] = 0
byte_length (c ∷ s) = char_bytes (code c) + byte_length s

-- The characters that fit, from `bytes` bytes on.
unfoldable pub fit : ℕ → ℕ → String → String
fit most bytes [] = []
fit most bytes (c ∷ s) =
    let rest = fit most (bytes + char_bytes (code c)) s in
    if leb (bytes + char_bytes (code c)) most then c ∷ rest else []

abbrev pub max_description_bytes : ℕ
max_description_bytes = 128

unfoldable pub truncate_description : String → String
unfolding byte_length fit
truncate_description s =
    if leb (byte_length s) max_description_bytes then s else fit max_description_bytes 0 s

abbrev pub registered_as : String → String → String → Bool → Command → String → Registered
registered_as team url trigger managed c token = record {
  id = c.id;
  trigger = trigger;
  team_id = team;
  token = token;
  url = url;
  managed = managed;
}

abbrev pub settings_for : String → String → String → Spec → Settings
settings_for team url trigger spec = record {
  team_id = team;
  trigger = trigger;
  method = post_method;
  url = url;
  description = truncate_description spec.description;
  auto_complete = spec.auto_complete;
  auto_complete_hint = spec.auto_complete_hint;
}

abbrev pub drifted : String → Command → Bool
drifted url c = not (c.url == url) || not (c.method == post_method)

-- A failed creation is caught: the trigger is not registered, and the pass goes on.
abbrev pub skip_failure :
    Result Failure Registered × List Request → Result Failure (Option Registered) × List Request
skip_failure (ok r, later) = (ok (some r), later)
skip_failure (err e, later) = (ok none, later)

abbrev pub create_or_skip : M Registered → M (Option Registered)
create_or_skip m sent = skip_failure (m sent)

abbrev pub is_owned : String → Command → Bool
is_owned creator c = elim c.creator_id [ none ↦ false | some id ↦ trim id == creator ]

abbrev pub select_commands : (Command → Bool) → List Command → List Command
select_commands p [] = []
select_commands p (c ∷ cs) = if p c then c ∷ select_commands p cs else select_commands p cs

-- The commands of a trigger that the creator owns, and those that it does not.
abbrev pub owned_for : String → String → List Command → List Command
owned_for creator trigger = select_commands (λ c. c.trigger == trigger && is_owned creator c)

abbrev pub foreign_for : String → String → List Command → List Command
foreign_for creator trigger =
    select_commands (λ c. c.trigger == trigger && not (is_owned creator c))

abbrev pub is_nil : List Command → Bool
is_nil [] = true
is_nil (c ∷ cs) = false

abbrev pub is_taken : String → List Command → String → Bool
is_taken creator existing trigger =
    is_nil (owned_for creator trigger existing)
    && not (is_nil (foreign_for creator trigger existing))

abbrev pub candidate_triggers : Spec → List String
candidate_triggers spec =
    let fallback = or_else spec.fallback_trigger spec.trigger in
    if fallback == spec.trigger then spec.trigger ∷ [] else spec.trigger ∷ fallback ∷ []

abbrev pub with_registered : Option Registered → List Registered → List Registered
with_registered none done = done
with_registered (some r) done = done ++ r ∷ []

abbrev pub has_trigger : String → List Registered → Bool
has_trigger t done = any (λ r. r.trigger == t) done

-- A failed deletion is caught.
abbrev pub delete_or_skip : M Command → M (Unit {0})
delete_or_skip m sent = (ok tt, (m sent).1)

abbrev pub has_specs : List (Bool × Spec) → Bool
has_specs [] = false
has_specs (s ∷ ss) = true
