-- ===== src/Picker/Buttons.antt =====
-- src/mattermost/model-picker.ts: what comes back when a button is pressed.
use openclaw_mattermost_cust.Base.{
  ℕ, ◌≤◌, ◌≡◌, refl, Bool, true, false, String, Option, none, some, List, arith, All, All-append,
  All-map, All-take, All-drop, max, [], ◌∷◌, ◌+◌, ◌-◌, if◌then◌else◌,
}
use openclaw_mattermost_cust.Base.Text.{is_empty}
use openclaw_mattermost_cust.Picker.Context.{
  Number, ModelsData, PickerState, of_providers, of_back, of_list, of_select, of_apply, Sdk,
  get_value, read_context_string, read_context_number, normalize_page, build_context, parse_context,
}
use openclaw_mattermost_cust.Picker.Parts.{
  Button, ModelRef, ButtonParams, split_model_ref, state_for, build_button,
}
use openclaw_mattermost_cust.Picker.Pages.{Page, page_size, paginate_items}
use openclaw_mattermost_cust.Picker.Views.{
  back_button, list_button, model_button, nav_row, page_view, view_of_models, models_view, row_of,
  get_provider_models,
}

module _ (sdk : Sdk) where
  open sdk use {normalize_provider_id, normalize_optional}

  -- A text that the SDK's normalisation leaves as it is.
  abbrev pub IsText : String → Type 0
  IsText s = (normalize_optional s ≡ some s) × (is_empty s ≡ false)

  abbrev pub IsProvider : String → Type 0
  IsProvider p = (normalize_provider_id p ≡ p) × (is_empty p ≡ false)

  abbrev pub IsRuntime : Option String → Type 0
  IsRuntime none = Unit
  IsRuntime (some r) = IsText r

  -- The states that the views write on their buttons.
  abbrev pub IsNormal : PickerState → Type 0
  IsNormal (of_providers owner) = IsText owner
  IsNormal (of_back owner) = IsText owner
  IsNormal (of_list owner provider page) = IsText owner × IsProvider provider × (1 ≤ page)
  IsNormal (of_select owner provider page model runtime) =
      IsText owner × IsProvider provider × (1 ≤ page) × IsText model × (runtime ≡ none)
  IsNormal (of_apply owner provider page model runtime) =
      IsText owner × IsProvider provider × (1 ≤ page) × IsText model × IsRuntime runtime

  -- The parser reads every state back from the context that it was written to, where its texts are
  -- normal, its page is positive, and only `apply` has a runtime.
  pub parse_context-build_context :
      (state : PickerState) → IsNormal state → parse_context sdk (build_context state) ≡ some state
  unfolding parse_context build_context get_value read_context_string read_context_number
      normalize_page
  parse_context-build_context (of_providers owner) h =
      rw (h.0, sdk.word_normal "providers" refl, h.1) refl
  parse_context-build_context (of_back owner) h = rw (h.0, sdk.word_normal "back" refl, h.1) refl
  parse_context-build_context (of_list owner provider page) (o, p, low) =
      let same : max 1 page ≡ page = omega arith in
      rw (o.0, sdk.word_normal "list" refl, p.0, o.1, p.1, same) refl
  parse_context-build_context (of_select owner provider page model runtime) (o, p, low, m, r) =
      let same : max 1 page ≡ page = omega arith in
      rw (r, o.0, sdk.word_normal "select" refl, p.0, m.0, o.1, p.1, m.1, same) refl
  parse_context-build_context (of_apply owner provider page model none) (o, p, low, m, r) =
      let same : max 1 page ≡ page = omega arith in
      rw (o.0, sdk.word_normal "apply" refl, p.0, m.0, sdk.optional_empty, o.1, p.1, m.1, same) refl
  parse_context-build_context (of_apply owner provider page model (some r)) (o, p, low, m, q) =
      let same : max 1 page ≡ page = omega arith in
      rw (o.0, sdk.word_normal "apply" refl, p.0, m.0, q.0, o.1, p.1, m.1, same) refl

  -- A state of the owner which names no other provider.
  abbrev pub Serves : String → String → PickerState → Type 0
  Serves owner provider (of_providers o) = o ≡ owner
  Serves owner provider (of_back o) = o ≡ owner
  Serves owner provider (of_list o p page) = (o ≡ owner) × (p ≡ provider)
  Serves owner provider (of_select o p page m r) = (o ≡ owner) × (p ≡ provider)
  Serves owner provider (of_apply o p page m r) = (o ≡ owner) × (p ≡ provider)

  -- A button whose context is parsed as such a state.
  abbrev pub Returns : String → String → Button → Type 0
  Returns owner provider b =
      (state : PickerState) × (parse_context sdk b.context ≡ some state)
      × Serves owner provider state

  built-Returns :
      (owner provider : String) (b : ButtonParams)
      → IsNormal (state_for sdk b.action b)
      → Serves owner provider (state_for sdk b.action b)
      → Returns owner provider (build_button sdk b)
  unfolding build_button
  built-Returns owner provider b n s =
      (state_for sdk b.action b, parse_context-build_context (state_for sdk b.action b) n, s)

  module _ (owner : String) (provider : String) (o : IsText owner) (p : IsProvider provider) where
    back-Returns : Returns owner provider (back_button sdk owner)
    back-Returns = built-Returns owner provider _ o refl

    provider-IsProvider : IsProvider (normalize_provider_id provider)
    provider-IsProvider = (sdk.provider_normal provider, rw p.0 p.1)

    list-Returns :
        (label : String) (page : ℕ)
        → Returns owner provider (list_button sdk owner label provider page)
    unfolding normalize_page
    list-Returns label page =
        built-Returns owner provider _ (o, provider-IsProvider, omega arith) (refl, p.0)

    model-Returns :
        (page : ℕ) (current : Option ModelRef) (model : String)
        → IsText model
        → Returns owner provider (model_button sdk owner provider page current model)
    unfolding normalize_page
    model-Returns page current model m =
        built-Returns owner provider _ (o, provider-IsProvider, omega arith, rw m.0 m, refl)
          (refl, p.0)

    All-one_if :
        (shown : Bool) (b : Button)
        → Returns owner provider b
        → All (Returns owner provider) (if shown then b ∷ [] else [])
    All-one_if true b h = (h, tt)
    All-one_if false b h = tt

    All-row_of :
        (bs : List Button)
        → All (Returns owner provider) bs
        → All (All (Returns owner provider)) (row_of sdk bs)
    All-row_of [] h = tt
    All-row_of (b ∷ bs) h = (h, tt)

    nav-Returns :
        (page : Page String) → All (Returns owner provider) (nav_row sdk owner provider page)
    nav-Returns page =
        All-append (Returns owner provider) _ _
          (All-one_if page.has_prev _ (list-Returns "Prev" (page.page - 1)))
          (All-one_if page.has_next _ (list-Returns "Next" (page.page + 1)))

    page_view-Returns :
        (current : Option String) (page : Page String)
        → All IsText page.items
        → All (All (Returns owner provider)) (page_view sdk owner provider current page).buttons
    page_view-Returns current page texts =
        All-append (All (Returns owner provider)) _ _
          (All-map IsText (All (Returns owner provider)) _
            (λ m t. (model-Returns page.page (split_model_ref sdk current) m t, tt)) page.items
            texts)
          (All-append (All (Returns owner provider)) _ _ (All-row_of _ (nav-Returns page))
            ((back-Returns, tt), tt))

    view_of_models-Returns :
        (models : List String) (page : Option Number) (current : Option String)
        → All IsText models
        → All
            (All (Returns owner provider))
            (view_of_models sdk models owner provider page current).buttons
    unfolding paginate_items
    view_of_models-Returns [] page current texts = ((back-Returns, tt), tt)
    view_of_models-Returns (m ∷ ms) page current texts =
        page_view-Returns current (paginate_items (m ∷ ms) page)
          (All-take IsText page_size _ (All-drop IsText _ (m ∷ ms) texts))

  -- Every button of the view of a provider's models, the models' buttons, `Prev`, `Next` and the way
  -- back, carries a context that the parser reads as a state of the same owner and of no other
  -- provider, where the owner and the models are normal texts and the provider is not empty.
  pub models_view-Returns :
      (owner : String) (models : ModelsData) (provider : String) (page : Option Number)
      (current : Option String)
      → IsText owner
      → is_empty (normalize_provider_id provider) ≡ false
      → All IsText (get_provider_models sdk models (normalize_provider_id provider))
      → All
          (All (Returns owner (normalize_provider_id provider)))
          (models_view sdk owner models provider page current).buttons
  unfolding models_view
  models_view-Returns owner models provider page current o full texts =
      view_of_models-Returns owner (normalize_provider_id provider) o
        (sdk.provider_normal provider, full)
        (get_provider_models sdk models (normalize_provider_id provider)) page current texts
