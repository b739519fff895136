-- ===== src/Card/Links.antt =====
-- src/mattermost/task-progress-card.ts: the link of a subtask: its text and its reference in Markdown.
use Prim.Native.Char.{Char, code}
use Prim.Native.String
use Prim.Native.String.append
use Prim.Native.String.{[], ◌∷◌}
use openclaw_mattermost_cust.Base.{
  ℕ, Bool, true, false, ◌||◌, String, Option, none, some, eqb, if◌then◌else◌,
}

-- A character that would end the reference of a link, or open another.
unfoldable pub has_paren : String → Bool
has_paren [] = false
has_paren (c ∷ s) = eqb (code c) 40 || eqb (code c) 41 || has_paren s

-- A reader of the links of Markdown, which knows nothing of the writer. A text and what follows it.
abbrev pub prefixed : Char → Option (String × String) → Option (String × String)
prefixed c none = none
prefixed c (some (s, rest)) = some (c ∷ s, rest)

-- An opening bracket, and the marks of emphasis, code and deletion.
abbrev pub is_mark : ℕ → Bool
is_mark c = eqb c 91 || eqb c 42 || eqb c 95 || eqb c 96 || eqb c 126

-- The text of a link up to the first bracket that closes it, where a backslash takes the next
-- character as it is, and the flag says that one was read. A mark would begin markup within it.
unfoldable pub read_label : Bool → String → Option (String × String)
read_label escaped [] = none
read_label true (c ∷ s) = prefixed c (read_label false s)
read_label false (c ∷ s) =
    let escape = read_label true s in
    let rest = read_label false s in
    if eqb (code c) 92
    then escape
    else if eqb (code c) 93
    then some ([], s)
    else if is_mark (code c)
    then none
    else prefixed c rest

-- The reference up to the first parenthesis that closes it.
unfoldable pub read_reference : String → Option (String × String)
read_reference [] = none
read_reference (c ∷ s) =
    let rest = read_reference s in
    if eqb (code c) 41 then some ([], s) else if eqb (code c) 40 then none else prefixed c rest

-- A parenthesis directly after the text, and the reference.
unfoldable pub read_target : String → String → Option (String × String × String)
unfolding read_reference
read_target label [] = none
read_target label (c ∷ s) =
    if eqb (code c) 40
    then elim (read_reference s) [ none ↦ none | some (url, rest) ↦ some (label, url, rest) ]
    else none

-- The text and the reference of the link at the begin of a text, and what follows the link.
unfoldable pub read_link : String → Option (String × String × String)
unfolding read_label read_target
read_link [] = none
read_link (c ∷ s) =
    if eqb (code c) 91
    then elim (read_label false s) [ none ↦ none | some (label, rest) ↦ read_target label rest ]
    else none
