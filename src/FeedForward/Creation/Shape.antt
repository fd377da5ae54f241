-- ===== src/FeedForward/Creation/Shape.antt =====
-- The arrays of a new network are as large as its layers say.
use mathlib.Core.Path.{subst}
use coremio.Prelude.{
  ℕ, zero, suc, ◌+◌, ◌*◌, ◌^◌, ◌<◌, ◌≡◌, refl, sym, ap, ◌∙◌, true, false, Option, none, some, List,
  [], ◌∷◌, ltb, ◌==◌, ==_iff, length, ◌⊎◌, inl, inr, Bool-cases, arith,
}
use coremio.FeedForward.{Neuron, Layer, Network}
use coremio.FeedForward.Creation.{
  Draws, filled, new_neurons, connected, connect, layer_new, blank, new_layers, first_layers, new,
  Created, created, failed, overran, fits, neuron_bytes, layer_bytes,
}
use coremio.FeedForward.Stream.RoundTrip.{
  IsCounted, NextFit, SameFit, BiasFits, ValuesFit, LayersFit,
}

-- the numbers of neurons of some layers
abbrev pub sizes_of : {R : Type 0} → List (Layer R) → List ℕ
sizes_of [] = []
sizes_of (l ∷ layers) = length l.neurons ∷ sizes_of layers

-- the neurons of each layer fit in a word
abbrev pub AllFit : List ℕ → Type 0
AllFit [] = Unit
AllFit (n ∷ ns) = (neuron_bytes * n < 2 ^ 64) × AllFit ns

ltb-of_lt : (a b : ℕ) → a < b → ltb a b ≡ true
ltb-of_lt a b h = ground arith

fits-of_lt : (n : ℕ) → neuron_bytes * n < 2 ^ 64 → fits neuron_bytes n ≡ true
fits-of_lt n h = ltb-of_lt (neuron_bytes * n) (2 ^ 64) h

module _ {R : Type 0} where
  length-filled : (weight : ℕ → R) (n : ℕ) → length (filled weight n) ≡ n
  unfolding filled
  length-filled weight zero = refl
  length-filled weight (suc n) = ap suc (length-filled (λ i. weight (suc i)) n)

  -- the last layer so far: nothing to the next layer, and no reentrant arcs
  record IsLast (l : Layer R) : Type 0 where
    pub no_bias : l.bias_to_next_layer ≡ none
    pub no_next : NextFit l.neurons []
    pub no_same : SameFit false (length l.neurons) l.neurons
    pub flat : ltb 1 l.depth ≡ false
    pub valued : ValuesFit l.depth l.neurons

  module _ (zeroed : R) (random : Draws R) where
    new_neurons-fit :
        (depth layer elements index size n : ℕ)
        → (length (new_neurons zeroed random false depth layer elements index n) ≡ n)
          × NextFit (new_neurons zeroed random false depth layer elements index n) []
          × SameFit false size (new_neurons zeroed random false depth layer elements index n)
          × ValuesFit depth (new_neurons zeroed random false depth layer elements index n)
    unfolding new_neurons
    new_neurons-fit depth layer elements index size zero = (refl, tt, tt, tt)
    new_neurons-fit depth layer elements index size (suc n) =
        let (l, f, s, v) = new_neurons-fit depth layer elements (index + 1) size n in
        (ap suc l, (refl, f), (refl, s), (refl, v))

    layer_new-IsLast :
        (layer elements : ℕ)
        → IsLast (layer_new zeroed random layer elements 1 false)
          × (length (layer_new zeroed random layer elements 1 false).neurons ≡ elements)
    unfolding layer_new
    layer_new-IsLast layer elements =
        let (l, f, s, v) =
          new_neurons-fit 1 layer elements 0
            (length (new_neurons zeroed random false 1 layer elements 0 elements)) elements in
        (record { no_bias = refl; no_next = f; no_same = s; flat = refl; valued = v }, l)

    connected-fit :
        (layer elements previous index size depth : ℕ) (neurons : List (Neuron R)) (next : Layer R)
        (layers : List (Layer R))
        → 0 < elements
        → length next.neurons ≡ elements
        → SameFit false size neurons
        → ValuesFit depth neurons
        → NextFit (connected zeroed random layer elements previous index neurons) (next ∷ layers)
          × SameFit false size (connected zeroed random layer elements previous index neurons)
          × ValuesFit depth (connected zeroed random layer elements previous index neurons)
          × (length (connected zeroed random layer elements previous index neurons)
              ≡ length neurons)
    unfolding connected
    connected-fit layer elements previous index size depth [] next layers p e h v =
        (tt, tt, tt, refl)
    connected-fit layer elements previous index size depth (n ∷ neurons) next layers p e (s, h)
          (i, v) =
        let (f, t, w, l) =
          connected-fit layer elements previous (index + 1) size depth neurons next layers p e h
            v in
        (
          (
            (
              length-filled (random previous false layer index) elements ∙ sym e,
              omega (arith, p, e),
            ),
            f,
          ),
          (s, t),
          (i, w),
          ap suc l,
        )

    blank-IsLast : IsLast (blank zeroed random)
    blank-IsLast = record { no_bias = refl; no_next = tt; no_same = tt; flat = refl; valued = tt }

    unconnected-NextFit :
        (neurons : List (Neuron R)) (next : Layer R) (layers : List (Layer R))
        → NextFit neurons []
        → NextFit neurons (next ∷ layers)
    unconnected-NextFit [] next layers h = tt
    unconnected-NextFit (n ∷ neurons) next layers (e, h) = (
      subst (IsCounted (length next.neurons)) (sym e) tt,
      unconnected-NextFit neurons next layers h,
    )

    any_size :
        (a b : ℕ) (neurons : List (Neuron R)) → SameFit false a neurons → SameFit false b neurons
    any_size a b [] h = tt
    any_size a b (n ∷ neurons) (e, h) = (e, any_size a b neurons h)

    -- the layers that a loop gives, from the number of neurons of the one before
    record Grows (size : ℕ) (sizes : List ℕ) (o : Created (List (Layer R))) : Type 0 where
      pub head : Layer R
      pub behind : List (Layer R)
      pub is_created : o ≡ created (head ∷ behind)
      pub fit : LayersFit (head ∷ behind)
      pub same_sizes : sizes_of (head ∷ behind) ≡ size ∷ sizes

    same_length :
        (size : ℕ) (sizes : List ℕ) (o : Created (List (Layer R))) (g : Grows size sizes o)
        → length g.head.neurons ≡ size
    same_length size sizes o g = ap first g.same_sizes
      where
        first : List ℕ → ℕ
        first [] = 0
        first (n ∷ ns) = n

    -- the layer before is put in front, with its arrays to the next layer or without
    put-Grows :
        (previous : Layer R) (bias : Option (List R)) (neurons : List (Neuron R)) (elements : ℕ)
        (sizes : List ℕ) (o : Created (List (Layer R)))
        → IsLast previous
        → (g : Grows elements sizes o) → BiasFits bias (g.head ∷ g.behind)
        → NextFit neurons (g.head ∷ g.behind)
        → SameFit false (length neurons) neurons
        → ValuesFit previous.depth neurons
        → length neurons ≡ length previous.neurons
        → Grows (length previous.neurons) (elements ∷ sizes) (elim o [
          | created layers ↦
              created (record previous { neurons = neurons; bias_to_next_layer = bias } ∷ layers)
          | failed ↦ failed
          | overran ↦ overran
        ])
    put-Grows previous bias neurons elements sizes o last g b f s v l = record {
      head = record previous { neurons = neurons; bias_to_next_layer = bias };
      behind = g.head ∷ g.behind;
      is_created =
          ap
            (λ p. elim p [
              | created layers ↦
                  created
                    (record previous { neurons = neurons; bias_to_next_layer = bias } ∷ layers)
              | failed ↦ failed
              | overran ↦ overran
            ])
            g.is_created;
      fit =
          (b, f, subst (λ deep. SameFit deep (length neurons) neurons) (sym last.flat) s, v, g.fit);
      same_sizes = ap (λ ns. length neurons ∷ ns) g.same_sizes ∙ ap (λ n. n ∷ elements ∷ sizes) l;
    }

    new_layers-Grows :
        (index : ℕ) (previous : Layer R) (sizes : List ℕ)
        → IsLast previous
        → AllFit sizes
        → Grows
            (length previous.neurons)
            sizes
            (new_layers zeroed random (λ _. true) index previous sizes)
    unfolding new_layers connect
    new_layers-Grows index previous [] last small = record {
      head = previous;
      behind = [];
      is_created = refl;
      fit = (
        last.no_bias,
        last.no_next,
        subst (λ deep. SameFit deep (length previous.neurons) previous.neurons) (sym last.flat)
            last.no_same,
        last.valued,
        tt,
      );
      same_sizes = refl;
    }
    new_layers-Grows index previous (elements ∷ sizes) last (small, smalls) =
        by_size (Bool-cases (elements == 0))
          (new_layers-Grows (index + 1) (blank zeroed random) sizes blank-IsLast smalls)
          (new_layers-Grows (index + 1) (layer_new zeroed random index elements 1 false) sizes
            (layer_new-IsLast index elements).0 smalls)
      where
        fresh : Layer R
        fresh = layer_new zeroed random index elements 1 false

        by_size :
            ((elements == 0) ≡ true) ⊎ ((elements == 0) ≡ false)
            → Grows 0 sizes
                (new_layers zeroed random (λ _. true) (index + 1) (blank zeroed random) sizes)
            → Grows
                (length fresh.neurons)
                sizes
                (new_layers zeroed random (λ _. true) (index + 1) fresh sizes)
            → Grows
                (length previous.neurons)
                (elements ∷ sizes)
                (new_layers zeroed random (λ _. true) index previous (elements ∷ sizes))
        by_size (inl zeros) g h =
            rw (zeros, new_layers)
              (subst
                (λ n.
                  Grows (length previous.neurons) (n ∷ sizes)
                    (elim (new_layers zeroed random (λ _. true) (index + 1) (blank zeroed random)
                      sizes) [
                        | created layers ↦ created (previous ∷ layers)
                        | failed ↦ failed
                        | overran ↦ overran
                      ]))
                (sym ((==_iff elements 0).0 zeros))
                (put-Grows previous previous.bias_to_next_layer previous.neurons 0 sizes _ last g
                  (subst (IsCounted (length g.head.neurons)) (sym last.no_bias) tt)
                  (unconnected-NextFit previous.neurons g.head g.behind last.no_next) last.no_same
                  last.valued refl))
        by_size (inr positive) g h =
            let grown =
              subst
                (λ n. Grows n sizes (new_layers zeroed random (λ _. true) (index + 1) fresh sizes))
                (layer_new-IsLast index elements).1 h in
            let e =
              same_length elements sizes
                (new_layers zeroed random (λ _. true) (index + 1) fresh sizes) grown in
            let (f, s, v, l) =
              connected-fit index elements (length previous.neurons) 0 (length previous.neurons)
                previous.depth previous.neurons grown.head grown.behind (above elements positive) e
                last.no_same last.valued in
            rw (positive, fits-of_lt elements small, new_layers)
              (put-Grows previous (some (filled (λ i. zeroed) elements))
                (connected zeroed random index elements (length previous.neurons) 0
                  previous.neurons)
                elements sizes (new_layers zeroed random (λ _. true) (index + 1) fresh sizes) last
                grown
                (
                  length-filled (λ i. zeroed) elements ∙ sym e,
                  omega (arith, above elements positive, e),
                )
                f
                (any_size (length previous.neurons)
                  (length (
                    connected zeroed random index elements (length previous.neurons) 0
                      previous.neurons))
                  _ s)
                v l)
          where
            above : (n : ℕ) → (n == 0) ≡ false → 0 < n
            above n h = ground arith

    -- what `f_fnn_new` gives
    pub record Made (sizes : List ℕ) (o : Created (Network R)) : Type 0 where
      pub network : Network R
      pub is_created : o ≡ created network
      pub fit : LayersFit network.layers
      pub same_sizes : sizes_of network.layers ≡ sizes

    -- With every allocation given, and where the layers, and the neurons of each of them, fit in a word, `f_fnn_new`
    -- succeeds for any numbers of neurons, also 0: the network has a layer of each number, its arrays are as large
    -- as its layers say, and each neuron has as many values as its layer has depth.
    pub new-Made :
        (clipping_gradient learning_rate momentum_gradient : R) (sizes : List ℕ)
        → layer_bytes * length sizes < 2 ^ 64
        → AllFit sizes
        → Made sizes (
            new zeroed random true
              (λ _. true)
              clipping_gradient
              learning_rate
              momentum_gradient
              sizes)
    unfolding new first_layers
    new-Made clipping_gradient learning_rate momentum_gradient [] few small = record {
      network = record {
        learning_rate = learning_rate;
        momentum_gradient = momentum_gradient;
        recent_average_error = zeroed;
        clipping_gradient = clipping_gradient;
        learning_epoch = 0;
        layers = [];
      };
      is_created = refl;
      fit = tt;
      same_sizes = refl;
    }
    new-Made clipping_gradient learning_rate momentum_gradient (elements ∷ sizes) few
          (small, smalls) =
        elim (Bool-cases (elements == 0)) [
          | inl zeros ↦
              rw (fewer, new, zeros, first_layers)
                (from_layers (new_layers-Grows 1 (blank zeroed random) sizes blank-IsLast smalls)
                  (sym ((==_iff elements 0).0 zeros)))
          | inr positive ↦
              rw (fewer, new, positive, fits-of_lt elements small, first_layers)
                (from_layers
                  (new_layers-Grows 1 (layer_new zeroed random 0 elements 1 false) sizes
                    (layer_new-IsLast 0 elements).0 smalls)
                  (layer_new-IsLast 0 elements).1)
        ]
      where
        fewer : fits layer_bytes (length (elements ∷ sizes)) ≡ true
        fewer = ltb-of_lt (layer_bytes * length (elements ∷ sizes)) (2 ^ 64) few

        from_layers :
            {size : ℕ} {o : Created (List (Layer R))}
            → Grows size sizes o
            → size ≡ elements
            → Made (elements ∷ sizes) (elim o [
              | created layers ↦ created (record {
                learning_rate = learning_rate;
                momentum_gradient = momentum_gradient;
                recent_average_error = zeroed;
                clipping_gradient = clipping_gradient;
                learning_epoch = 0;
                layers = layers;
              })
              | failed ↦ failed
              | overran ↦ overran
            ])
        from_layers {size} {o} g e = record {
          network = record {
            learning_rate = learning_rate;
            momentum_gradient = momentum_gradient;
            recent_average_error = zeroed;
            clipping_gradient = clipping_gradient;
            learning_epoch = 0;
            layers = g.head ∷ g.behind;
          };
          is_created =
              ap
                (λ p. elim p [
                  | created layers ↦ created (record {
                    learning_rate = learning_rate;
                    momentum_gradient = momentum_gradient;
                    recent_average_error = zeroed;
                    clipping_gradient = clipping_gradient;
                    learning_epoch = 0;
                    layers = layers;
                  })
                  | failed ↦ failed
                  | overran ↦ overran
                ])
                g.is_created;
          fit = g.fit;
          same_sizes = g.same_sizes ∙ ap (λ n. n ∷ sizes) e;
        }
