-- ===== src/Stop/Retirement.antt =====
-- src/mattermost/preview-stop.ts: what the operations of a turn leave of an entry
-- that is over.
use openclaw_mattermost_cust.Base.{
  ℕ, ◌≤◌, ◌<◌, ◌≡◌, refl, Bool, Bool-cases, inl, inr, true, false, ◌||◌, String, ◌==◌, eq_iff, eqb,
  eqb_iff, Option, none, some, List, [], ◌∷◌, arith, if◌then◌else◌,
}
use openclaw_mattermost_cust.Base.Text.{is_empty}
use openclaw_mattermost_cust.Base.Keyed.{value_at, put_at, remove_at, value_at-remove_at}
use openclaw_mattermost_cust.Stop.Registry.{
  Identity, threw, known, Entry, Turn, Monitor, create_turn, is_ref, set_turn, drop_entry, retire,
  new_entry, enter, own, activate_turn, note_post, finish_turn, is_run, add_text,
}

abbrev pub is_registered : Entry → Monitor → Bool
is_registered e m = is_ref e.ref (value_at e.session_key m.entries)

-- What is over for an entry stays over, and object identities are not used twice.
pub record KeepsOver (e : Entry) (m n : Monitor) : Type 0 where
  pub made : m.made ≤ n.made
  pub next : m.next_ref ≤ n.next_ref
  pub finished :
      e.owner < m.made → (m.turns e.owner).finished ≡ true → (n.turns e.owner).finished ≡ true
  pub gone : e.ref < m.next_ref → is_registered e m ≡ false → is_registered e n ≡ false

pub over_kept : (e : Entry) (m : Monitor) → KeepsOver e m m
over_kept e m = record {
  made = omega arith;
  next = omega arith;
  finished = λ h k. k;
  gone = λ h k. k;
}

pub both : {e : Entry} {m n o : Monitor} → KeepsOver e m n → KeepsOver e n o → KeepsOver e m o
both a b = record {
  made = omega (arith, a.made, b.made);
  next = omega (arith, a.next, b.next);
  finished = λ h k. b.finished (omega (arith, a.made, h)) (a.finished h k);
  gone = λ h k. b.gone (omega (arith, a.next, h)) (a.gone h k);
}

pub either :
    {e : Entry} {m n o : Monitor} (b : Bool)
    → KeepsOver e m n
    → KeepsOver e m o
    → KeepsOver e m (if b then n else o)
either true a c = a
either false a c = c

is_ref-remove_at :
    (ref : ℕ) (j k : String) (es : List (String × Entry))
    → is_ref ref (value_at j es) ≡ false
    → is_ref ref (value_at j (remove_at k es)) ≡ false
is_ref-remove_at ref j k [] h = refl
is_ref-remove_at ref j k (x ∷ es) h = elim (Bool-cases (j == k)) [
  | inl same ↦
      let none_left : value_at j (remove_at k (x ∷ es)) ≡ none =
        ground (arith, eq_iff j k, value_at-remove_at k (x ∷ es)) in
      rw none_left refl
  | inr other ↦ ground (arith, eq_iff x.0 k, eq_iff x.0 j, eq_iff j k, is_ref-remove_at ref j k es)
]

is_ref-put_at :
    (ref : ℕ) (j k : String) (f : Entry) (es : List (String × Entry))
    → eqb f.ref ref ≡ false
    → is_ref ref (value_at j es) ≡ false
    → is_ref ref (value_at j (put_at k f es)) ≡ false
is_ref-put_at ref j k f [] new h = ground arith
is_ref-put_at ref j k f (x ∷ es) new h = ground (arith, is_ref-put_at ref j k f es new)

pub set_turn-KeepsOver :
    (e : Entry) (n : ℕ) (t : Turn) (m : Monitor)
    → ((m.turns n).finished ≡ true → t.finished ≡ true)
    → KeepsOver e m (set_turn n t m)
set_turn-KeepsOver e n t m h = record {
  made = omega arith;
  next = omega arith;
  finished = λ k f. ground (arith, eqb_iff e.owner n);
  gone = λ k f. f;
}

drop_entry-gone :
    (e : Entry) (key : String) (own : Option Entry) (es : List (String × Entry))
    → is_ref e.ref (value_at e.session_key es) ≡ false
    → is_ref e.ref (value_at e.session_key (drop_entry key own es)) ≡ false
drop_entry-gone e key none es h = h
drop_entry-gone e key (some f) es h = ground (arith, is_ref-remove_at e.ref e.session_key key es h)

retire-KeepsOver : (e : Entry) (n : ℕ) (m : Monitor) → KeepsOver e m (retire n m)
unfolding retire
retire-KeepsOver e n m =
    let t = m.turns n in
    let kept = set_turn-KeepsOver e n (record t { entry = none }) m (λ f. f) in
    record {
      made = kept.made;
      next = kept.next;
      finished = kept.finished;
      gone = λ h f. drop_entry-gone e t.session_key t.entry m.entries f;
    }

enter-KeepsOver :
    (e : Entry) (f : Entry) (m : Monitor) → f.ref ≡ m.next_ref → KeepsOver e m (enter f m)
enter-KeepsOver e f m fresh =
    let t = m.turns f.owner in
    let kept =
      set_turn-KeepsOver e f.owner (record t { entry = some f; tokens = add_text f.token t.tokens })
        m (λ g. g) in
    record {
      made = kept.made;
      next = omega arith;
      finished = kept.finished;
      gone = λ h g.
          is_ref-put_at e.ref e.session_key f.session_key f m.entries
            (ground (arith, eqb_iff f.ref e.ref)) g;
    }

own-KeepsOver :
    (e : Entry) (identity : Identity) (n : ℕ) (token : String) (m : Monitor)
    → KeepsOver e m (own identity n token m)
own-KeepsOver e threw n token m = over_kept e m
own-KeepsOver e (known none revision) n token m = over_kept e m
own-KeepsOver e (known (some id) revision) n token m =
    either (is_empty id) (over_kept e m)
      (enter-KeepsOver e (new_entry n token id revision m) m refl)

pub activate_turn-KeepsOver :
    (e : Entry) (n : ℕ) (name token : String) (m : Monitor)
    → KeepsOver e m (activate_turn n name token m)
unfolding activate_turn
activate_turn-KeepsOver e n name token m =
    let t = m.turns n in
    let r = retire n m in
    let named = set_turn n (record (r.turns n) { active_run = some name }) r in
    either (t.finished || m.shut_down || is_run name t.active_run) (over_kept e m) (
      both (retire-KeepsOver e n m) (
        both (set_turn-KeepsOver e n (record (r.turns n) { active_run = some name }) r (λ f. f))
          (own-KeepsOver e (m.identities t.session_key) n token named)))

pub finish_turn-KeepsOver : (e : Entry) (n : ℕ) (m : Monitor) → KeepsOver e m (finish_turn n m)
unfolding finish_turn
finish_turn-KeepsOver e n m =
    let t = m.turns n in
    both (set_turn-KeepsOver e n (record t { finished = true }) m (λ f. refl))
      (retire-KeepsOver e n (set_turn n (record t { finished = true }) m))

pub note_post-KeepsOver :
    (e : Entry) (n : ℕ) (post : String) (m : Monitor) → KeepsOver e m (note_post n post m)
unfolding note_post
note_post-KeepsOver e n post m =
    let t = m.turns n in
    set_turn-KeepsOver e n (record t { posts = add_text post t.posts }) m (λ f. f)

pub create_turn-KeepsOver :
    (e : Entry) (channel sender key : String) (m : Monitor)
    → KeepsOver e m (create_turn channel sender key m)
unfolding create_turn
create_turn-KeepsOver e channel sender key m = record {
  made = omega arith;
  next = omega arith;
  finished = λ h f. ground (arith, eqb_iff e.owner m.made);
  gone = λ h f. f;
}
