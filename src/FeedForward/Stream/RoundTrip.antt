-- ===== src/FeedForward/Stream/RoundTrip.antt =====
-- A network that is written to a stream and read from it.
use coremio.Prelude.{
  ℕ, zero, suc, ◌<◌, ◌≡◌, refl, sym, ap, ◌∙◌, Bool, true, false, Option, none, some, List, [], ◌∷◌,
  ◌++◌, map, append_assoc, if◌then◌else◌, ltb, length, arith,
}
use coremio.FeedForward.{hyperbolic_tangent, Neuron, Layer, Network}
use coremio.FeedForward.Stream.{
  Item, items, dump_counted, dump_next, dump_lettered, dump_same, dump_bias, dump_weights,
  dump_layer, dump_layers, dump_model, Load, loaded, and_then, load_reals, load_counted,
  load_lettered, load_each, nothing, combine, load_layer, load_layers, load_model,
}

module _ {R : Type 0} where
  -- an array that is null, or of a size that is not 0
  abbrev pub IsCounted : ℕ → Option (List R) → Type 0
  IsCounted n none = Unit
  IsCounted n (some xs) = (length xs ≡ n) × (0 < n)

  abbrev pub IsSized : ℕ → Option (List R) → Type 0
  IsSized n none = Unit
  IsSized n (some xs) = length xs ≡ n

  -- the arrays of the neurons of a layer, before the layers behind it
  abbrev pub NextFit : List (Neuron R) → List (Layer R) → Type 0
  NextFit [] layers = Unit
  NextFit (n ∷ neurons) [] = (n.weights_to_next_layer ≡ none) × NextFit neurons []
  NextFit (n ∷ neurons) (l ∷ layers) =
      IsCounted (length l.neurons) n.weights_to_next_layer × NextFit neurons (l ∷ layers)

  abbrev pub SameFit : Bool → ℕ → List (Neuron R) → Type 0
  SameFit deep size [] = Unit
  SameFit true size (n ∷ neurons) = IsSized size n.weights_to_same_layer × SameFit true size neurons
  SameFit false size (n ∷ neurons) = (n.weights_to_same_layer ≡ none) × SameFit false size neurons

  abbrev pub ValuesFit : ℕ → List (Neuron R) → Type 0
  ValuesFit depth [] = Unit
  ValuesFit depth (n ∷ neurons) = (n.values ≡ depth) × ValuesFit depth neurons

  abbrev pub BiasFits : Option (List R) → List (Layer R) → Type 0
  BiasFits bias [] = bias ≡ none
  BiasFits bias (l ∷ layers) = IsCounted (length l.neurons) bias

  -- arrays as large as the layers say
  abbrev pub LayersFit : List (Layer R) → Type 0
  LayersFit [] = Unit
  LayersFit (l ∷ layers) =
      BiasFits l.bias_to_next_layer layers
      × NextFit l.neurons layers
      × SameFit (ltb 1 l.depth) (length l.neurons) l.neurons
      × ValuesFit l.depth l.neurons
      × LayersFit layers

  module _ (reread : R → R) where
    abbrev pub reread_array : Option (List R) → Option (List R)
    reread_array none = none
    reread_array (some xs) = some (map reread xs)

    abbrev pub reread_neuron : Neuron R → Neuron R
    reread_neuron n = record {
      values = n.values;
      weights_to_next_layer = reread_array n.weights_to_next_layer;
      weights_to_same_layer = reread_array n.weights_to_same_layer;
    }

    abbrev pub reread_layer : Layer R → Layer R
    reread_layer l = record {
      neurons = map reread_neuron l.neurons;
      depth = l.depth;
      bias_to_next_layer = reread_array l.bias_to_next_layer;
      activator_function = hyperbolic_tangent;
    }

    -- what a load makes of the network that was written
    abbrev pub reread_network : (clipping_gradient zeroed : R) → Network R → Network R
    reread_network clipping_gradient zeroed m = record {
      learning_rate = reread m.learning_rate;
      momentum_gradient = reread m.momentum_gradient;
      recent_average_error = zeroed;
      clipping_gradient = clipping_gradient;
      learning_epoch = 0;
      layers = map reread_layer m.layers;
    }

    load_reals-items :
        (n : ℕ) (xs : List R) (rest : List (Item R))
        → length xs ≡ n
        → load_reals reread n (items n xs ++ rest) ≡ loaded (map reread xs) rest
    unfolding load_reals items
    load_reals-items zero [] rest e = refl
    load_reals-items zero (x ∷ xs) rest e = absurd (omega (arith, e))
    load_reals-items (suc n) [] rest e = absurd (omega (arith, e))
    load_reals-items (suc n) (x ∷ xs) rest e =
        rw (load_reals-items n xs rest (omega (arith, e)), load_reals) refl

    load_counted-dump_counted :
        (n : ℕ) (o : Option (List R)) (rest : List (Item R))
        → IsCounted n o
        → load_counted reread true (dump_counted n o ++ rest) ≡ loaded (reread_array o) rest
    unfolding load_counted dump_counted
    load_counted-dump_counted n none rest h = refl
    load_counted-dump_counted n (some xs) rest (e, positive) =
        rw (above n positive, load_reals-items n xs rest e, load_counted) refl
      where
        above : (n : ℕ) → 0 < n → ltb 0 n ≡ true
        above n h = ground arith

    load_lettered-dump_lettered :
        (n : ℕ) (o : Option (List R)) (rest : List (Item R))
        → IsSized n o
        → load_lettered reread true n (dump_lettered n o ++ rest) ≡ loaded (reread_array o) rest
    unfolding load_lettered dump_lettered
    load_lettered-dump_lettered n none rest h = refl
    load_lettered-dump_lettered n (some xs) rest e =
        rw (load_reals-items n xs rest e, load_lettered) refl

    -- the arrays of the neurons
    abbrev nexts : List (Neuron R) → List (Option (List R))
    nexts [] = []
    nexts (n ∷ neurons) = reread_array n.weights_to_next_layer ∷ nexts neurons

    abbrev sames : List (Neuron R) → List (Option (List R))
    sames [] = []
    sames (n ∷ neurons) = reread_array n.weights_to_same_layer ∷ sames neurons

    load_each-dump_next :
        (l : Layer R) (layers : List (Layer R)) (neurons : List (Neuron R)) (rest : List (Item R))
        → NextFit neurons (l ∷ layers)
        → load_each reread
            (λ i. load_counted reread true)
            (length neurons)
            (dump_next (length l.neurons) neurons ++ rest)
          ≡ loaded (nexts neurons) rest
    unfolding load_each dump_next
    load_each-dump_next l layers [] rest h = refl
    load_each-dump_next l layers (n ∷ neurons) rest (fits, h) =
        rw
          (
            append_assoc (dump_counted (length l.neurons) n.weights_to_next_layer)
                (dump_next (length l.neurons) neurons) rest,
            load_counted-dump_counted (length l.neurons) n.weights_to_next_layer
                (dump_next (length l.neurons) neurons ++ rest) fits,
            load_each-dump_next l layers neurons rest h,
            load_each,
          )
          refl

    load_each-dump_same :
        (size : ℕ) (neurons : List (Neuron R)) (rest : List (Item R))
        → SameFit true size neurons
        → load_each reread
            (λ i. load_lettered reread true size)
            (length neurons)
            (dump_same size neurons ++ rest)
          ≡ loaded (sames neurons) rest
    unfolding load_each dump_same
    load_each-dump_same size [] rest h = refl
    load_each-dump_same size (n ∷ neurons) rest (fits, h) =
        rw
          (
            append_assoc (dump_lettered size n.weights_to_same_layer) (dump_same size neurons) rest,
            load_lettered-dump_lettered size n.weights_to_same_layer
                (dump_same size neurons ++ rest) fits,
            load_each-dump_same size neurons rest h,
            load_each,
          )
          refl

    nothing-nexts :
        (neurons : List (Neuron R))
        → NextFit neurons []
        → nothing reread (length neurons) ≡ nexts neurons
    unfolding nothing
    nothing-nexts [] h = refl
    nothing-nexts (n ∷ neurons) (e, h) =
        ap (λ o. o ∷ nothing reread (length neurons)) (sym (ap reread_array e))
        ∙ ap (λ os. reread_array n.weights_to_next_layer ∷ os) (nothing-nexts neurons h)

    nothing-sames :
        (size : ℕ) (neurons : List (Neuron R))
        → SameFit false size neurons
        → nothing reread (length neurons) ≡ sames neurons
    unfolding nothing
    nothing-sames size [] h = refl
    nothing-sames size (n ∷ neurons) (e, h) =
        ap (λ o. o ∷ nothing reread (length neurons)) (sym (ap reread_array e))
        ∙ ap (λ os. reread_array n.weights_to_same_layer ∷ os) (nothing-sames size neurons h)

    combine-nexts :
        (depth : ℕ) (neurons : List (Neuron R))
        → ValuesFit depth neurons
        → combine reread depth (nexts neurons) (sames neurons) ≡ map reread_neuron neurons
    unfolding combine
    combine-nexts depth [] h = refl
    combine-nexts depth (n ∷ neurons) (e, h) =
        ap
          (λ v.
            record {
              values = v;
              weights_to_next_layer = reread_array n.weights_to_next_layer;
              weights_to_same_layer = reread_array n.weights_to_same_layer;
            }
            ∷ combine reread depth (nexts neurons) (sames neurons))
          (sym e)
        ∙ ap (λ ns. reread_neuron n ∷ ns) (combine-nexts depth neurons h)

    load_counted-dump_bias :
        (bias : Option (List R)) (layers : List (Layer R)) (rest : List (Item R))
        → BiasFits bias layers
        → load_counted reread true (dump_bias bias layers ++ rest) ≡ loaded (reread_array bias) rest
    unfolding dump_bias dump_counted load_counted
    load_counted-dump_bias none [] rest h = refl
    load_counted-dump_bias (some xs) [] rest h = absurd (some≢none h)
      where
        some≢none : some xs ≡ none → ⊥
        some≢none h = ground arith
    load_counted-dump_bias none (l ∷ layers) rest h = refl
    load_counted-dump_bias (some xs) (l ∷ layers) rest h =
        load_counted-dump_counted (length l.neurons) (some xs) rest h

    -- the arrays to the next layer, where there is one
    abbrev load_nexts : ℕ → ℕ → List (Item R) → Load R (List (Option (List R)))
    load_nexts behind size stream =
        if ltb 0 behind
        then load_each reread (λ i. load_counted reread true) size stream
        else loaded (nothing reread size) stream

    load_nexts-dump_weights :
        (neurons : List (Neuron R)) (layers : List (Layer R)) (rest : List (Item R))
        → NextFit neurons layers
        → load_nexts (length layers) (length neurons) (dump_weights neurons layers ++ rest)
          ≡ loaded (nexts neurons) rest
    unfolding dump_weights
    load_nexts-dump_weights neurons [] rest h = ap (λ os. loaded os rest) (nothing-nexts neurons h)
    load_nexts-dump_weights neurons (l ∷ layers) rest h =
        rw (one_more (length layers)) (load_each-dump_next l layers neurons rest h)
      where
        one_more : (n : ℕ) → ltb 0 (suc n) ≡ true
        one_more n = ground arith

    load_sames-dump_same :
        (deep : Bool) (size : ℕ) (neurons : List (Neuron R)) (rest : List (Item R))
        → SameFit deep size neurons
        → (if deep
            then load_each reread
                (λ i. load_lettered reread true size)
                (length neurons)
                ((if deep then dump_same size neurons else []) ++ rest)
            else loaded
                (nothing reread (length neurons))
                ((if deep then dump_same size neurons else []) ++ rest))
          ≡ loaded (sames neurons) rest
    load_sames-dump_same true size neurons rest h = load_each-dump_same size neurons rest h
    load_sames-dump_same false size neurons rest h =
        ap (λ os. loaded os rest) (nothing-sames size neurons h)

    load_layer-dump_layer :
        (l : Layer R) (layers : List (Layer R)) (rest : List (Item R))
        → BiasFits l.bias_to_next_layer layers
        → NextFit l.neurons layers
        → SameFit (ltb 1 l.depth) (length l.neurons) l.neurons
        → ValuesFit l.depth l.neurons
        → load_layer reread (λ _. true) (length layers) (dump_layer l layers ++ rest)
          ≡ loaded (reread_layer l) rest
    unfolding load_layer dump_layer
    load_layer-dump_layer l layers rest bias_fits next_fit same_fit values_fit =
        rw
          (
            append_assoc bias (weights ++ same) rest,
            append_assoc weights same rest,
            load_counted-dump_bias l.bias_to_next_layer layers (weights ++ (same ++ rest))
                bias_fits,
            load_nexts-dump_weights l.neurons layers (same ++ rest) next_fit,
            load_sames-dump_same (ltb 1 l.depth) (length l.neurons) l.neurons rest same_fit,
            combine-nexts l.depth l.neurons values_fit,
            load_layer,
          )
          refl
      where
        bias : List (Item R)
        bias = dump_bias l.bias_to_next_layer layers

        weights : List (Item R)
        weights = dump_weights l.neurons layers

        same : List (Item R)
        same = if ltb 1 l.depth then dump_same (length l.neurons) l.neurons else []

    load_layers-dump_layers :
        (layers : List (Layer R)) (rest : List (Item R))
        → LayersFit layers
        → load_layers reread (λ _. true) (length layers) (dump_layers layers ++ rest)
          ≡ loaded (map reread_layer layers) rest
    unfolding load_layers dump_layers
    load_layers-dump_layers [] rest h = refl
    load_layers-dump_layers (l ∷ layers) rest (bias_fits, next_fit, same_fit, values_fit, h) =
        ap (load_layers reread (λ _. true) (suc (length layers)))
          (append_assoc (dump_layer l layers) (dump_layers layers) rest)
        ∙ ap (λ o. and_then o further)
            (load_layer-dump_layer l layers (dump_layers layers ++ rest) bias_fits next_fit same_fit
              values_fit)
        ∙ ap (λ o. and_then o (λ ls r. loaded (reread_layer l ∷ ls) r))
            (load_layers-dump_layers layers rest h)
      where
        further : Layer R → List (Item R) → Load R (List (Layer R))
        further l rest =
            and_then (load_layers reread (λ _. true) (length layers) rest)
              λ layers rest'. loaded (l ∷ layers) rest'

    -- A network whose arrays are as large as its layers say, written to a stream and read from it with every
    -- allocation given, comes back with its layers, their depths and their arrays, and each number as the format
    -- reads what it wrote. What is not written is as in a new network: the activator functions are the hyperbolic
    -- tangent, the clipping gradient is the default one, and the average error and the learning epoch are zero. Of
    -- the items behind the network on the stream none is read.
    pub load_model-dump_model :
        (clipping_gradient zeroed : R) (m : Network R) (rest : List (Item R))
        → LayersFit m.layers
        → load_model reread clipping_gradient zeroed (λ _. true) (dump_model m ++ rest)
          ≡ loaded (reread_network clipping_gradient zeroed m) rest
    unfolding load_model dump_model
    load_model-dump_model clipping_gradient zeroed m rest h =
        rw (load_layers-dump_layers m.layers rest h, load_model) refl
