-- ===== src/SafeRepr/Totality.antt =====
-- src/pidprobe/_saferepr.py: when a rendering ends with a text.
use pidprobe.Base.{
  ℕ, zero, suc, ◌+◌, ◌≤◌, ◌≡◌, refl, String, count, Bool, false, none, some, [], if◌then◌else◌,
}
use pidprobe.SafeRepr.Names.{Unicode}
use pidprobe.SafeRepr.Process.{
  Exc, Attempt, done, raised, ◌>>=◌, Iteration, Ref, Object, a_dict, a_list, a_tuple, a_frozenset,
  a_set, a_str, other, Process,
}
use pidprobe.SafeRepr.Render.{
  truncation_marker, max_total_chars, max_depth, safe_repr, render, render_object, render_items,
  render_mapping, render_pair, bounded_repr, failure, key_is_secret, is_secret_key, take, max_items,
  Below, Style, list_style, tuple_style, frozenset_style, set_style,
}
use pidprobe.SafeRepr.Bounds.{safe_repr-count}
use pidprobe.SafeRepr.Returns.{
  CatchablePull, CatchableObject, LetsPass, IsCatchable, Returns, returned, escaped,
  take_loop-Catchable, try_then-Returns, >>=-Returns, for_each-Returns, if-Returns, name-Returns,
}

value_of : {A : Type 0} {a : Attempt A} → Returns (λ e. ⊥) a → (x : A) × (a ≡ done x)
value_of (returned x) = (x, refl)
value_of (escaped e h) = absurd h

module _ {E : Exc → Type 0} (p : Process) (u : Unicode) (c : LetsPass E p) where
  failure-Returns : (r : Ref) (e : Exc) → Returns E (failure p u r e)
  unfolding failure
  failure-Returns r e =
      >>=-Returns (name-Returns (p.type_name r) (c.type_names r)) (λ name. returned _)

  bounded_repr-Returns : (r : Ref) → Returns E (bounded_repr p u r)
  unfolding bounded_repr
  bounded_repr-Returns r =
      try_then-Returns (p.repr r) (c.reprs r) (failure-Returns r) (λ x. returned _)

  AllReturn : Below p u → Type 0
  AllReturn none = Unit {0}
  AllReturn (some below) = (r : Ref) → Returns E (below r)

  module _ (below : Ref → Attempt String) (h : (r : Ref) → Returns E (below r)) where
    render_items-Returns :
        (r : Ref) (next : Iteration Ref) (style : Style)
        → ((i : ℕ) → CatchablePull E (next i))
        → Returns E (render_items p u (some below) r next style)
    unfolding render_items take
    render_items-Returns r next style k =
        try_then-Returns (take next max_items) (take_loop-Catchable E next k max_items 0 [])
          (failure-Returns r)
          λ (items, more).
            if-Returns _ (bounded_repr-Returns r)
              (>>=-Returns (for_each-Returns items h) (λ parts. returned _))

    secret-Returns :
        (key : Ref) (o : Attempt Object)
        → CatchableObject E o
        → Returns E (o >>= λ o. done (is_secret_key u o))
    secret-Returns key (done o) k = returned _
    secret-Returns key (raised e) k = escaped e k

    masks-Returns :
        (is_masked : Bool) (key : Ref)
        → Returns E (if is_masked then key_is_secret p u key else done false)
    unfolding key_is_secret
    masks-Returns is_masked key =
        if-Returns is_masked (secret-Returns key (p.object key) (c.objects key)) (returned false)

    render_pair-Returns :
        (is_masked : Bool) (entry : Ref × Ref) → Returns E (render_pair p u below is_masked entry)
    unfolding render_pair
    render_pair-Returns is_masked (key, value) = >>=-Returns (h key) λ k.
        >>=-Returns (masks-Returns is_masked key)
          λ b. if-Returns b (returned _) (>>=-Returns (h value) (λ t. returned _))

    render_mapping-Returns :
        (is_masked : Bool) (r : Ref) (next : Iteration (Ref × Ref))
        → ((i : ℕ) → CatchablePull E (next i))
        → Returns E (render_mapping p u (some below) is_masked r next)
    unfolding render_mapping take
    render_mapping-Returns is_masked r next k =
        try_then-Returns (take next max_items) (take_loop-Catchable E next k max_items 0 [])
          (failure-Returns r)
          λ (items, more). if-Returns _ (bounded_repr-Returns r) (
            >>=-Returns (for_each-Returns items (render_pair-Returns is_masked))
              (λ parts. returned _))

  render_object-Returns :
      (below : Below p u) (is_masked : Bool) (r : Ref) (o : Object)
      → AllReturn below
      → CatchableObject E (done o)
      → Returns E (render_object p u below is_masked r o)
  unfolding render_object AllReturn
  render_object-Returns none is_masked r (a_dict next) h k = unfold render_mapping in returned _
  render_object-Returns none is_masked r (a_list next) h k = unfold render_items in returned _
  render_object-Returns none is_masked r (a_tuple next) h k = unfold render_items in returned _
  render_object-Returns none is_masked r (a_frozenset next) h k = unfold render_items in returned _
  render_object-Returns none is_masked r (a_set next) h k = unfold render_items in returned _
  render_object-Returns (some below) is_masked r (a_dict next) h k =
      render_mapping-Returns below h is_masked r next k
  render_object-Returns (some below) is_masked r (a_list next) h k =
      render_items-Returns below h r next list_style k
  render_object-Returns (some below) is_masked r (a_tuple next) h k =
      render_items-Returns below h r next tuple_style k
  render_object-Returns (some below) is_masked r (a_frozenset next) h k =
      render_items-Returns below h r next frozenset_style k
  render_object-Returns (some below) is_masked r (a_set next) h k =
      render_items-Returns below h r next set_style k
  render_object-Returns _ is_masked r (a_str s) h k = bounded_repr-Returns r
  render_object-Returns _ is_masked r other h k = bounded_repr-Returns r

  then_render-Returns :
      (below : Below p u) (is_masked : Bool) (r : Ref) (o : Attempt Object)
      → AllReturn below
      → CatchableObject E o
      → Returns E (o >>= render_object p u below is_masked r)
  then_render-Returns below is_masked r (done o) h k = render_object-Returns below is_masked r o h k
  then_render-Returns below is_masked r (raised e) h k = escaped e k

  render-Returns :
      (depth : ℕ) (is_masked : Bool) (r : Ref) → Returns E (render p u depth is_masked r)
  unfolding render AllReturn
  render-Returns zero is_masked r =
      then_render-Returns none is_masked r (p.object r) tt (c.objects r)
  render-Returns (suc depth) is_masked r =
      then_render-Returns (some (render p u depth is_masked)) is_masked r (p.object r)
        (render-Returns depth is_masked) (c.objects r)

  safe_repr-Returns : (r : Ref) (is_masked : Bool) → Returns E (safe_repr p u r is_masked)
  unfolding safe_repr
  safe_repr-Returns r is_masked =
      >>=-Returns (render-Returns max_depth is_masked r) (λ t. returned _)

-- If the target's objects tell `isinstance` what they are and have class names, then whatever
-- `Exception`s their iterations and their `repr` raise, a rendering ends with a text within the bounds.
pub safe_repr-done :
    (p : Process) (u : Unicode) (c : IsCatchable p) (r : Ref) (is_masked : Bool)
    → (text : String) × (safe_repr p u r is_masked ≡ done text)
      × (count text ≤ max_total_chars + count truncation_marker)
safe_repr-done p u c r is_masked =
    let (text, e) = value_of (safe_repr-Returns p u c r is_masked) in
    (text, e, safe_repr-count p u r is_masked e)

-- What a rendering lets pass: what is no `Exception`, and what is raised where an object is asked for
-- its class or for the name of its class.
pub data Passes (p : Process) (e : Exc) : Type 0 where
  not_an_exception : e.is_exception ≡ false → Passes p e
  by_object : (r : Ref) → p.object r ≡ raised e → Passes p e
  by_type_name : (r : Ref) → p.type_name r ≡ raised e → Passes p e

pub data Rendered (p : Process) : Attempt String → Type 0 where
  ends_with :
      (text : String)
      → count text ≤ max_total_chars + count truncation_marker
      → Rendered p (done text)
  passed_on : (e : Exc) → Passes p e → Rendered p (raised e)

-- An object whose `repr` raises past `except Exception` takes the rendering down with it.
safe_repr_escape :
    (p : Process) (u : Unicode) (r : Ref) (is_masked : Bool) {e : Exc}
    → p.object r ≡ done other
    → p.repr r ≡ raised e
    → e.is_exception ≡ false
    → safe_repr p u r is_masked ≡ raised e
unfolding safe_repr
safe_repr_escape p u r is_masked o h k = rw (o, h) (simp k)

-- An object that raises when `isinstance` asks for its class does the same, also with an `Exception`.
safe_repr-object :
    (p : Process) (u : Unicode) (r : Ref) (is_masked : Bool) {e : Exc}
    → p.object r ≡ raised e
    → safe_repr p u r is_masked ≡ raised e
unfolding safe_repr
safe_repr-object p u r is_masked o = rw o refl
