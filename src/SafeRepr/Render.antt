-- ===== src/SafeRepr/Render.antt =====
-- src/pidprobe/_saferepr.py: `safe_repr`, `safe_repr_named` and all below them.
-- Container levels are counted down by the recursion: `none` stands for `depth <= 0`, and `some below`
-- for a positive depth, where `below` renders one level further down. The recursion ends for every
-- process, also where containers hold themselves.
use pidprobe.Base.{
  ℕ, zero, suc, String, ◌<>◌, count, Bool, true, false, not, ◌&&◌, Option, none, some, List, [],
  ◌∷◌, ◌++◌, ltb, ◌==◌, if◌then◌else◌, length,
}
use pidprobe.Base.Text
use pidprobe.SafeRepr.Names.{Unicode, is_secret_name}
use pidprobe.SafeRepr.Process.{
  Exc, Attempt, done, raised, ◌>>=◌, for_each, Pull, item, stop, breaks, Iteration, Ref, Object,
  a_dict, a_list, a_tuple, a_frozenset, a_set, a_str, Process,
}

abbrev pub max_depth : ℕ
max_depth = 3

abbrev pub max_items : ℕ
max_items = 10

abbrev pub max_string_chars : ℕ
max_string_chars = 200

abbrev pub max_total_chars : ℕ
max_total_chars = 2000

abbrev pub mask_placeholder : String
mask_placeholder = "<masked>"

abbrev pub truncation_marker : String
truncation_marker = "...<truncated>"

abbrev pub elision : String
elision = "..."

unfoldable pub bounded : String → ℕ → String
unfolding Text.take
bounded text limit =
    if ltb limit (count text) then Text.take limit text <> truncation_marker else text

-- One round of a `for` loop: what comes next, or what to do with an element.
unfoldable pub on_pull : {A B : Type 0} → Pull A → B → (A → Attempt B) → Attempt B
on_pull (item x) at_end body = body x
on_pull stop at_end body = done at_end
on_pull (breaks e) at_end body = raised e

-- The loop of `_take`. `room` is `limit - len(items)`, and `i` counts the calls of `__next__`.
unfoldable pub take_loop :
    {A : Type 0} → Iteration A → (room i : ℕ) → List A → Attempt (List A × Bool)
unfolding on_pull
take_loop next zero i items = on_pull (next i) (items, false) (λ x. done (items, true))
take_loop next (suc room) i items =
    on_pull (next i) (items, false) (λ x. take_loop next room (suc i) (items ++ (x ∷ [])))

unfoldable pub take : {A : Type 0} → Iteration A → ℕ → Attempt (List A × Bool)
unfolding take_loop
take next limit = take_loop next limit 0 []

-- `try: a = attempt / except Exception as exc: return handler(exc)`, and what follows.
unfoldable pub try_then {ℓ κ} :
    {A : Type ℓ} {B : Type κ} → Attempt A → (Exc → Attempt B) → (A → Attempt B) → Attempt B
try_then (done a) handler next = next a
try_then (raised e) handler next = if e.is_exception then handler e else raised e

abbrev pub is_empty {ℓ} : {A : Type ℓ} → List A → Bool
is_empty [] = true
is_empty (x ∷ xs) = false

-- A bracket pair, and whether a single element takes a comma behind it (tuples).
pub record Style : Type 0 where
  pub opening : String
  pub closing : String
  pub is_tuple : Bool

abbrev pub list_style : Style
list_style = record { opening = "["; closing = "]"; is_tuple = false }

abbrev pub tuple_style : Style
tuple_style = record { opening = "("; closing = ")"; is_tuple = true }

abbrev pub frozenset_style : Style
frozenset_style = record { opening = "frozenset({"; closing = "})"; is_tuple = false }

abbrev pub set_style : Style
set_style = record { opening = "{"; closing = "}"; is_tuple = false }

-- `parts.append(ELISION)` if there are more
abbrev pub elided : List String → Bool → List String
elided parts has_more = if has_more then parts ++ (elision ∷ []) else parts

unfoldable pub items_text : Style → List String → Bool → String
unfolding Text.join
items_text style parts has_more =
    let parts' = elided parts has_more in
    let body = Text.join ", " parts' in
    let comma : String = if style.is_tuple && length parts' == 1 && not has_more then "," else "" in
    style.opening <> ((body <> comma) <> style.closing)

unfoldable pub mapping_text : List String → Bool → String
unfolding Text.join
mapping_text parts has_more = "{" <> (Text.join ", " (elided parts has_more) <> "}")

-- `isinstance(key, str) and is_secret_name(key)`
unfoldable pub is_secret_key : Unicode → Object → Bool
unfolding is_secret_name
is_secret_key u (a_str name) = is_secret_name u name
is_secret_key u _ = false

module _ (p : Process) (u : Unicode) where
  unfoldable pub failure : Ref → Exc → Attempt String
  failure r e = do
    name ← p.type_name r
    done ("<unrepresentable " <> (name <> (": " <> (e.type_name <> ">"))))

  unfoldable pub bounded_repr : Ref → Attempt String
  unfolding try_then failure bounded
  bounded_repr r = try_then (p.repr r) (failure r) (λ text. done (bounded text max_string_chars))

  -- `_render` of what is one level down, if the depth allows it.
  abbrev pub Below : Type 0
  Below = Option (Ref → Attempt String)

  unfoldable pub render_items : Below → Ref → Iteration Ref → Style → Attempt String
  unfolding take try_then failure bounded_repr for_each items_text
  render_items none r next style = done (style.opening <> (elision <> style.closing))
  render_items (some below) r next style =
      try_then (take next max_items) (failure r) λ (items, has_more).
        if is_empty items && not has_more
        then bounded_repr r
        else do parts ← for_each below items; done (items_text style parts has_more)

  unfoldable pub key_is_secret : Ref → Attempt Bool
  unfolding is_secret_key
  key_is_secret key = do o ← p.object key; done (is_secret_key u o)

  unfoldable pub render_pair : (Ref → Attempt String) → Bool → Ref × Ref → Attempt String
  unfolding key_is_secret
  render_pair below is_masked (key, value) = do
    rendered_key ← below key
    is_hidden ← if is_masked then key_is_secret key else done false
    if is_hidden
        then done (rendered_key <> (": " <> mask_placeholder))
        else do rendered ← below value; done (rendered_key <> (": " <> rendered))

  unfoldable pub render_mapping : Below → Bool → Ref → Iteration (Ref × Ref) → Attempt String
  unfolding take try_then failure bounded_repr for_each mapping_text render_pair
  render_mapping none is_masked r next = done ("{" <> (elision <> "}"))
  render_mapping (some below) is_masked r next =
      try_then (take next max_items) (failure r) λ (items, has_more).
        if is_empty items && not has_more then bounded_repr r else do
          parts ← for_each (render_pair below is_masked) items
          done (mapping_text parts has_more)

  -- The tests of `_render`, in their order.
  unfoldable pub render_object : Below → Bool → Ref → Object → Attempt String
  unfolding render_items render_mapping bounded_repr
  render_object below is_masked r (a_dict next) = render_mapping below is_masked r next
  render_object below is_masked r (a_list next) = render_items below r next list_style
  render_object below is_masked r (a_tuple next) = render_items below r next tuple_style
  render_object below is_masked r (a_frozenset next) = render_items below r next frozenset_style
  render_object below is_masked r (a_set next) = render_items below r next set_style
  render_object below is_masked r _ = bounded_repr r

  unfoldable pub render : ℕ → Bool → Ref → Attempt String
  unfolding render_object
  render zero is_masked r = do o ← p.object r; render_object none is_masked r o
  render (suc depth) is_masked r = do
    o ← p.object r
    render_object (some (render depth is_masked)) is_masked r o

  unfoldable pub safe_repr : Ref → Bool → Attempt String
  unfolding render bounded
  safe_repr r is_masked = do
    text ← render max_depth is_masked r
    done (bounded text max_total_chars)

  unfoldable pub safe_repr_named : String → Ref → Bool → Attempt String
  unfolding safe_repr is_secret_name
  safe_repr_named name r is_masked =
      if is_masked && is_secret_name u name then done mask_placeholder else safe_repr r is_masked
