-- ===== src/FeedForward/Creation.antt =====
-- `p_fnn_container_new`, `p_fnn_layer_new` and `f_fnn_new`. The random weights are an argument, by the layer, the
-- neuron and the weight; an initial bias is zero. The sizes in bytes are those of a machine with words of 64 bits.
pub mod Shape
use coremio.Prelude.{
  ℕ, zero, suc, ◌+◌, ◌*◌, ◌^◌, Bool, true, false, ◌&&◌, Option, none, some, List, [], ◌∷◌,
  if◌then◌else◌, ltb, ◌==◌, length,
}
use coremio.FeedForward.{hyperbolic_tangent, no_function, Neuron, Layer, Network}

-- the end of a creation: it succeeded, or an allocation failed. `overran` is an array whose size in bytes does not fit
-- in a word: when `d_malloc` gives what the wrapped size asks for, it is written behind its end
pub data Created (A : Type 0) : Type 0 where
  created : A → Created A
  failed overran : Created A

-- `sizeof(s_neuron)` and `sizeof(s_neural_layer)`
abbrev pub neuron_bytes : ℕ
neuron_bytes = 56

abbrev pub layer_bytes : ℕ
layer_bytes = 64

-- whether the size of an array in bytes fits in a word
abbrev pub fits : (bytes n : ℕ) → Bool
fits bytes n = ltb (bytes * n) (2 ^ 64)

-- the draws of `p_fnn_random_weight`: the elements, whether the weights are to the same layer, and the place
abbrev pub Draws : Type 0 → Type 0
Draws R = (elements : ℕ) → (same_layer : Bool) → (layer neuron weight : ℕ) → R

module _ {R : Type 0} where
  -- an array that is filled from an index on
  unfoldable pub filled : (ℕ → R) → ℕ → List R
  filled weight zero = []
  filled weight (suc n) = weight 0 ∷ filled (λ i. weight (suc i)) n

  module _ (zeroed : R) (random : Draws R) where
    -- the neurons of a new layer, from an index on
    unfoldable pub new_neurons :
        (is_reentrant : Bool) → (depth layer elements index : ℕ) → ℕ → List (Neuron R)
    unfolding filled
    new_neurons is_reentrant depth layer elements index zero = []
    new_neurons is_reentrant depth layer elements index (suc n) =
        record {
          values = depth;
          weights_to_next_layer = none;
          weights_to_same_layer =
              (if is_reentrant
                then some (filled (random elements true layer index) elements)
                else none);
        }
        ∷ new_neurons is_reentrant depth layer elements (index + 1) n

    -- the weights of the neurons of the previous layer
    unfoldable pub connected :
        (layer elements previous_elements index : ℕ) → List (Neuron R) → List (Neuron R)
    unfolding filled
    connected layer elements previous_elements index [] = []
    connected layer elements previous_elements index (n ∷ neurons) =
        record n {
          weights_to_next_layer =
              some (filled (random previous_elements false layer index) elements);
        }
        ∷ connected layer elements previous_elements (index + 1) neurons

    -- the previous layer, once the next one has a number of neurons
    unfoldable pub connect : (layer elements : ℕ) → Layer R → Layer R
    unfolding connected filled
    connect layer elements previous = record previous {
      neurons = connected layer elements (length previous.neurons) 0 previous.neurons;
      bias_to_next_layer = some (filled (λ i. zeroed) elements);
    }

    -- `p_fnn_layer_new`: the layer
    unfoldable pub layer_new : (layer elements depth : ℕ) → (reentrant_arcs_needed : Bool) → Layer R
    unfolding new_neurons
    layer_new layer elements depth reentrant_arcs_needed = record {
      neurons = new_neurons (ltb 1 depth && reentrant_arcs_needed) depth layer elements 0 elements;
      depth = depth;
      bias_to_next_layer = none;
      activator_function = hyperbolic_tangent;
    }

    -- a layer that `memset` left
    abbrev pub blank : Layer R
    blank = record {
      neurons = [];
      depth = 0;
      bias_to_next_layer = none;
      activator_function = no_function;
    }

    -- the loop of `f_fnn_new` behind a layer; `memory` says whether all allocations of a layer succeed, those of its
    -- neurons, of their `values`, and of the arrays from the previous layer to it
    unfoldable pub new_layers :
        (memory : ℕ → Bool) → (index : ℕ) → (previous : Layer R) → List ℕ → Created (List (Layer R))
    unfolding connect layer_new
    new_layers memory index previous [] = created (previous ∷ [])
    new_layers memory index previous (elements ∷ sizes) =
        let skipped = new_layers memory (index + 1) blank sizes in
        let rest = new_layers memory (index + 1) (layer_new index elements 1 false) sizes in
        if elements == 0
        then elim skipped [
          | created layers ↦ created (previous ∷ layers)
          | failed ↦ failed
          | overran ↦ overran
        ]
        else if fits neuron_bytes elements
        then (if memory index
            then elim rest [
              | created layers ↦ created (connect index elements previous ∷ layers)
              | failed ↦ failed
              | overran ↦ overran
            ]
            else failed)
        else overran

    -- the loop of `f_fnn_new`
    unfoldable pub first_layers : (memory : ℕ → Bool) → List ℕ → Created (List (Layer R))
    unfolding new_layers layer_new
    first_layers memory [] = created []
    first_layers memory (elements ∷ sizes) =
        if elements == 0
        then new_layers memory 1 blank sizes
        else if fits neuron_bytes elements
        then (if memory 0 then new_layers memory 1 (layer_new 0 elements 1 false) sizes else failed)
        else overran

    -- `f_fnn_new`; `failed` is the result 1
    unfoldable pub new :
        (container_memory : Bool)
        → (memory : ℕ → Bool) → (clipping_gradient learning_rate momentum_gradient : R) → List ℕ
        → Created (Network R)
    unfolding first_layers
    new container_memory memory clipping_gradient learning_rate momentum_gradient sizes =
        if fits layer_bytes (length sizes)
        then (if container_memory
            then elim (first_layers memory sizes) [
              | created layers ↦ created (record {
                learning_rate = learning_rate;
                momentum_gradient = momentum_gradient;
                recent_average_error = zeroed;
                clipping_gradient = clipping_gradient;
                learning_epoch = 0;
                layers = layers;
              })
              | failed ↦ failed
              | overran ↦ overran
            ]
            else failed)
        else overran
