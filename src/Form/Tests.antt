-- ===== src/Form/Tests.antt =====
-- src/mattermost/form-schema.ts: the model on small forms, and the theorems at inputs that meet their
-- hypotheses.
use openclaw_mattermost_cust.Base.{◌≡◌, refl, true, false, String, List, [], ◌∷◌, ok, err}
use openclaw_mattermost_cust.Form.Selection.{
  text, texts, invalid_matrix_selection, unanswered_row, Selected, split, read_selections,
  read_entry, read_entries, parse_matrix_selection,
}
use openclaw_mattermost_cust.Form.Matrix.{IsSelection, parse_matrix_selection-entry_text}
use openclaw_mattermost_cust.Form.Allowed.{IsAnswer, parse_matrix_selection_sound}

abbrev two_rows : List String
two_rows = "q0" ∷ "q1" ∷ []

abbrev two_columns : List String
two_columns = "v0" ∷ "v1" ∷ []

abbrev chosen : Selected
chosen = ("q0", "v0" ∷ "v1" ∷ []) ∷ ("q1", "v1" ∷ []) ∷ []

chosen_test :
    parse_matrix_selection (texts ("q0:v0,v1" ∷ "q1:v1" ∷ [])) two_rows two_columns true false
    ≡ ok chosen
unfolding parse_matrix_selection read_entries read_entry read_selections split
chosen_test = refl

unanswered_test :
    parse_matrix_selection (text "q0:v0") two_rows two_columns false false ≡ err unanswered_row
unfolding parse_matrix_selection read_entries read_entry read_selections split
unanswered_test = refl

twice_test :
    parse_matrix_selection (texts ("q0:v0" ∷ "q0:v1" ∷ [])) two_rows two_columns false true
    ≡ err invalid_matrix_selection
unfolding parse_matrix_selection read_entries read_entry read_selections split
twice_test = refl

chosen-IsSelection : IsSelection two_rows two_columns true false chosen
chosen-IsSelection = record { each = (refl, (refl, tt)); once = refl; answers = refl }

parse_matrix_selection_sound_example : IsAnswer two_rows two_columns true false chosen
parse_matrix_selection_sound_example =
    parse_matrix_selection_sound (texts ("q0:v0,v1" ∷ "q1:v1" ∷ [])) two_rows two_columns true false
      chosen chosen_test

parse_matrix_selection-entry_text_example :
    parse_matrix_selection (texts ("q0:v0,v1" ∷ "q1:v1" ∷ [])) two_rows two_columns true false
    ≡ ok chosen
parse_matrix_selection-entry_text_example =
    parse_matrix_selection-entry_text two_rows two_columns true false chosen chosen-IsSelection
      (((refl, refl), ((refl, refl), ((refl, refl), tt))), (((refl, refl), ((refl, refl), tt)), tt))
