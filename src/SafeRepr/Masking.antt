-- ===== src/SafeRepr/Masking.antt =====
-- src/pidprobe/_saferepr.py: a value under a secret-like key leaves no trace in a masked rendering.
use mathlib.Core.Path.{subst}
use pidprobe.Base.{
  ℕ, zero, suc, ◌≡◌, refl, ap, ◌&&◌, not, if◌then◌else◌, String, Bool, true, false, none, some,
  List, [], ◌∷◌, inl, inr, All, ◌⊎◌,
}
use pidprobe.SafeRepr.Names.{Unicode}
use pidprobe.SafeRepr.Process.{
  Exc, Attempt, done, raised, ◌>>=◌, for_each, stop, Iteration, Ref, Object, a_dict, a_list,
  a_tuple, a_frozenset, a_set, Process,
}
use pidprobe.SafeRepr.Render.{
  safe_repr, render, failure, key_is_secret, is_empty, items_text, mapping_text, render_object,
  render_items, render_mapping, render_pair, bounded_repr, take, take_loop, max_items, Style,
  max_depth, list_style, tuple_style, frozenset_style, set_style,
}
use pidprobe.SafeRepr.Taken.{Gives, take_loop-Gives, try_then-ext, take-nothing}

module _ (u : Unicode) (p q : Process) (hidden : Ref → Bool) where
  -- What a container leads to is not hidden, except for a value under a secret-like key.
  abbrev pub Leads : Attempt Object → Type 0
  Leads (raised e) = Unit
  Leads (done (a_dict next)) =
      Gives
        (λ (k, v). (hidden k ≡ false) × ((hidden v ≡ false) ⊎ (key_is_secret p u k ≡ done true)))
        next
  Leads (done (a_list next)) = Gives (λ x. hidden x ≡ false) next
  Leads (done (a_tuple next)) = Gives (λ x. hidden x ≡ false) next
  Leads (done (a_frozenset next)) = Gives (λ x. hidden x ≡ false) next
  Leads (done (a_set next)) = Gives (λ x. hidden x ≡ false) next
  Leads (done _) = Unit

  -- What the rendering asks for its `repr`: an object that is no container, or one that is empty.
  abbrev pub IsBare : Attempt Object → Type 0
  IsBare (raised e) = ⊥
  IsBare (done (a_dict next)) = next 0 ≡ stop
  IsBare (done (a_list next)) = next 0 ≡ stop
  IsBare (done (a_tuple next)) = next 0 ≡ stop
  IsBare (done (a_frozenset next)) = next 0 ≡ stop
  IsBare (done (a_set next)) = next 0 ≡ stop
  IsBare (done _) = Unit

  -- Two processes that agree on all that is not hidden, and hidden objects are met only as values
  -- under secret-like keys. The `repr` of a container that holds something may differ: Python's shows
  -- the hidden values too.
  pub record AgreesOutside : Type 0 where
    pub objects : (r : Ref) → hidden r ≡ false → p.object r ≡ q.object r
    pub type_names : (r : Ref) → hidden r ≡ false → p.type_name r ≡ q.type_name r
    pub reprs : (r : Ref) → hidden r ≡ false → IsBare (p.object r) → p.repr r ≡ q.repr r
    pub leads : (r : Ref) → hidden r ≡ false → Leads (p.object r)

  module _ (agrees : AgreesOutside) where
    failure-agrees : (r : Ref) (e : Exc) → hidden r ≡ false → failure p u r e ≡ failure q u r e
    unfolding failure
    failure-agrees r e h = rw (agrees.type_names r h)

    bounded_repr-agrees :
        (r : Ref) → hidden r ≡ false → IsBare (p.object r) → bounded_repr p u r ≡ bounded_repr q u r
    unfolding bounded_repr
    bounded_repr-agrees r h b =
        let same : failure p u r ≡ failure q u r = λ i e. failure-agrees r e h i in
        rw (agrees.reprs r h b, same)

    -- What follows on the elements that were taken, where an empty container is asked for its `repr`.
    nothing_or-agrees :
        {A : Type 0} (r : Ref) (next : Iteration A) (xs : List A) (more : Bool)
        (x y : Attempt String)
        → hidden r ≡ false
        → (next 0 ≡ stop → IsBare (p.object r))
        → take_loop next max_items 0 [] ≡ done (xs, more)
        → x ≡ y
        → (if is_empty xs && not more then bounded_repr p u r else x)
          ≡ (if is_empty xs && not more then bounded_repr q u r else y)
    nothing_or-agrees r next [] false x y h b e s =
        bounded_repr-agrees r h (b (take-nothing next 9 e))
    nothing_or-agrees r next [] true x y h b e s = s
    nothing_or-agrees r next (z ∷ xs) more x y h b e s = s

    key_is_secret-agrees : (k : Ref) → hidden k ≡ false → key_is_secret p u k ≡ key_is_secret q u k
    unfolding key_is_secret
    key_is_secret-agrees k h = rw (agrees.objects k h) refl

    module _ (f g : Ref → Attempt String) (same : (x : Ref) → hidden x ≡ false → f x ≡ g x) where
      for_each-agrees :
          (xs : List Ref) → All (λ x. hidden x ≡ false) xs → for_each f xs ≡ for_each g xs
      unfolding for_each
      for_each-agrees [] h = refl
      for_each-agrees (x ∷ xs) h = rw (same x h.0, for_each-agrees xs h.1)

      render_items-agrees :
          (r : Ref) (next : Iteration Ref) (style : Style)
          → hidden r ≡ false
          → Gives (λ x. hidden x ≡ false) next
          → (next 0 ≡ stop → IsBare (p.object r))
          → render_items p u (some f) r next style ≡ render_items q u (some g) r next style
      unfolding render_items take
      render_items-agrees r next style h given b =
          try_then-ext (λ x. hidden x ≡ false) (take_loop next max_items 0 []) _ _ _ _
            (take_loop-Gives _ next given max_items 0 [] tt) (λ e. failure-agrees r e h)
            λ xs more all e. nothing_or-agrees r next xs more _ _ h b e (
              ap (λ a. a >>= (λ parts. done (items_text style parts more)))
                (for_each-agrees xs all))

      render_pair-agrees :
          (k v : Ref)
          → hidden k ≡ false
          → (hidden v ≡ false) ⊎ (key_is_secret p u k ≡ done true)
          → render_pair p u f true (k, v) ≡ render_pair q u g true (k, v)
      unfolding render_pair
      render_pair-agrees k v h (inl seen) =
          rw (same k h, same v seen, key_is_secret-agrees k h) refl
      render_pair-agrees k v h (inr secret) = rw (same k h, ← key_is_secret-agrees k h, secret) refl

      for_each_pair-agrees :
          (xs : List (Ref × Ref))
          → All
              (λ (k, v).
                (hidden k ≡ false) × ((hidden v ≡ false) ⊎ (key_is_secret p u k ≡ done true)))
              xs
          → for_each (render_pair p u f true) xs ≡ for_each (render_pair q u g true) xs
      unfolding for_each
      for_each_pair-agrees [] h = refl
      for_each_pair-agrees ((k, v) ∷ xs) h =
          rw (render_pair-agrees k v h.0.0 h.0.1, for_each_pair-agrees xs h.1)

      render_mapping-agrees :
          (r : Ref) (next : Iteration (Ref × Ref))
          → hidden r ≡ false
          → Leads (done (a_dict next))
          → (next 0 ≡ stop → IsBare (p.object r))
          → render_mapping p u (some f) true r next ≡ render_mapping q u (some g) true r next
      unfolding render_mapping take
      render_mapping-agrees r next h given b =
          try_then-ext
            (λ (k, v).
              (hidden k ≡ false) × ((hidden v ≡ false) ⊎ (key_is_secret p u k ≡ done true)))
            (take_loop next max_items 0 []) _ _ _ _ (take_loop-Gives _ next given max_items 0 [] tt)
            (λ e. failure-agrees r e h)
            λ xs more all e. nothing_or-agrees r next xs more _ _ h b e (
              ap (λ a. a >>= (λ parts. done (mapping_text parts more)))
                (for_each_pair-agrees xs all))

      render_object-agrees :
          (r : Ref) (o : Object)
          → p.object r ≡ done o
          → hidden r ≡ false
          → Leads (done o)
          → render_object p u (some f) true r o ≡ render_object q u (some g) true r o
      unfolding render_object
      render_object-agrees r (a_dict next) e h given =
          render_mapping-agrees r next h given (λ s. rw e s)
      render_object-agrees r (a_list next) e h given =
          render_items-agrees r next list_style h given (λ s. rw e s)
      render_object-agrees r (a_tuple next) e h given =
          render_items-agrees r next tuple_style h given (λ s. rw e s)
      render_object-agrees r (a_frozenset next) e h given =
          render_items-agrees r next frozenset_style h given (λ s. rw e s)
      render_object-agrees r (a_set next) e h given =
          render_items-agrees r next set_style h given (λ s. rw e s)
      render_object-agrees r _ e h given = bounded_repr-agrees r h (rw e tt)

    render_object-agrees_none :
        (r : Ref) (o : Object)
        → p.object r ≡ done o
        → hidden r ≡ false
        → render_object p u none true r o ≡ render_object q u none true r o
    unfolding render_object
    render_object-agrees_none r (a_dict next) e h = unfold render_mapping in refl
    render_object-agrees_none r (a_list next) e h = unfold render_items in refl
    render_object-agrees_none r (a_tuple next) e h = unfold render_items in refl
    render_object-agrees_none r (a_frozenset next) e h = unfold render_items in refl
    render_object-agrees_none r (a_set next) e h = unfold render_items in refl
    render_object-agrees_none r _ e h = bounded_repr-agrees r h (rw e tt)

    then-agrees :
        {B : Type 0} (o : Attempt Object) (f g : Object → Attempt B)
        → ((x : Object) → o ≡ done x → f x ≡ g x)
        → (o >>= f) ≡ (o >>= g)
    then-agrees (done x) f g h = h x refl
    then-agrees (raised e) f g h = refl

    render-agrees :
        (depth : ℕ) (r : Ref) → hidden r ≡ false → render p u depth true r ≡ render q u depth true r
    unfolding render
    render-agrees zero r h =
        rw (← agrees.objects r h)
          (then-agrees (p.object r) _ _ (λ o e. render_object-agrees_none r o e h))
    render-agrees (suc depth) r h = rw (← agrees.objects r h) (
        then-agrees (p.object r) _ _ (λ o e.
          render_object-agrees (render p u depth true) (render q u depth true) (render-agrees depth)
            r o e h (subst Leads e (agrees.leads r h))))

    -- With masking on, a rendering tells nothing of the objects that are met only as values under
    -- secret-like keys: two processes that differ in those alone, and in the `repr` of the containers
    -- that hold something, are rendered alike.
    pub safe_repr-agrees :
        (r : Ref) → hidden r ≡ false → safe_repr p u r true ≡ safe_repr q u r true
    unfolding safe_repr
    safe_repr-agrees r h = rw (render-agrees max_depth r h)
