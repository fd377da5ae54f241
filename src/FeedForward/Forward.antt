-- ===== src/FeedForward/Forward.antt =====
-- `f_fnn_run` with `p_fnn_forward_propagation`: the activators of each layer from those of the one before it, and
-- the highest of the last. The operations on numbers, and the activator functions, are arguments.
pub mod Highest
use coremio.Prelude.{
  ℕ, zero, suc, ◌+◌, Bool, true, false, Option, none, some, List, [], ◌∷◌, map, if◌then◌else◌, ltb,
  ◌&&◌, length,
}
use coremio.FeedForward.{Activator, Neuron, Layer, Network}

-- the numbers and `exp`; `exceeds` is `>`, and the activator functions take the sum of the exponentials
pub record Numbers (R : Type 0) : Type 0 where
  pub zeroed : R
  pub one : R
  pub minus_one : R
  pub add : R → R → R
  pub multiply : R → R → R
  pub exponential : R → R
  pub negate : R → R
  pub exceeds : R → R → Bool
  pub activator : Activator → (accumulator_exp : R) → R → R

module _ {R : Type 0} where
  -- the number at an index; `none` is behind the end
  abbrev pub at : ℕ → List R → Option R
  at i [] = none
  at zero (x ∷ xs) = some x
  at (suc i) (x ∷ xs) = at i xs

  abbrev pub weight_at : ℕ → Option (List R) → Option R
  weight_at i none = none
  weight_at i (some xs) = at i xs

  module _ (numbers : Numbers R) where
    -- the sum over the neurons of the layer before
    unfoldable pub weighted : ℕ → List (Neuron R) → (activators : List R) → R → Option R
    weighted j [] activators sum = some sum
    weighted j (n ∷ neurons) [] sum = none
    weighted j (n ∷ neurons) (a ∷ activators) sum = elim (weight_at j n.weights_to_next_layer) [
      | none ↦ none
      | some w ↦ weighted j neurons activators (numbers.add sum (numbers.multiply a w))
    ]

    -- `activator_before_integral` of some neurons, from an index on
    unfoldable pub before_integral :
        Layer R → (activators : List R) → (index : ℕ) → ℕ → Option (List R)
    unfolding weighted
    before_integral previous activators index zero = some []
    before_integral previous activators index (suc n) =
        elim (weight_at index previous.bias_to_next_layer) [
          | none ↦ none
          | some bias ↦ elim (weighted index previous.neurons activators bias) [
            | none ↦ none
            | some x ↦ elim (before_integral previous activators (index + 1) n) [
              | none ↦ none
              | some xs ↦ some (x ∷ xs)
            ]
          ]
        ]

    -- `accumulator_exp`
    unfoldable pub accumulated : List R → R → R
    accumulated [] sum = sum
    accumulated (x ∷ xs) sum = accumulated xs (numbers.add sum (numbers.exponential x))

    -- whether each neuron has `values[0]`, where its activator is
    unfoldable pub have_values : List (Neuron R) → Bool
    have_values [] = true
    have_values (n ∷ neurons) = ltb 0 n.values && have_values neurons

    -- the layers behind a layer, from its activators
    unfoldable pub propagate : Layer R → List (Layer R) → (activators : List R) → Option (List R)
    unfolding before_integral accumulated have_values
    propagate previous [] activators = some activators
    propagate previous (l ∷ layers) activators = elim (have_values l.neurons) [
      | false ↦ none
      | true ↦ elim (before_integral previous activators 0 (length l.neurons)) [
        | none ↦ none
        | some xs ↦
            propagate l layers
              (map (numbers.activator l.activator_function (accumulated xs numbers.zeroed)) xs)
      ]
    ]

    -- -1 for each of some neurons
    abbrev pub lowest : ℕ → List R
    lowest zero = []
    lowest (suc n) = numbers.minus_one ∷ lowest n

    -- the activators of the first layer; `none` is a write behind its neurons
    unfoldable pub input_activators : (neurons input : ℕ) → Option (List R)
    input_activators zero input = none
    input_activators (suc n) zero = some (numbers.one ∷ lowest n)
    input_activators (suc n) (suc input) = elim (input_activators n input) [
      | none ↦ none
      | some xs ↦ some (numbers.minus_one ∷ xs)
    ]

    -- the activators of the last layer, by `p_fnn_forward_propagation`
    unfoldable pub forward_propagation : Network R → (input : ℕ) → Option (List R)
    unfolding propagate input_activators have_values
    forward_propagation m input = elim m.layers [
      | [] ↦ none
      | l ∷ layers ↦ elim (have_values l.neurons) [
        | false ↦ none
        | true ↦ elim (input_activators (length l.neurons) input) [
          | none ↦ none
          | some activators ↦ propagate l layers activators
        ]
      ]
    ]

    -- the loop of `f_fnn_run`
    unfoldable pub best : (index output_index : ℕ) → (output_score : R) → List R → ℕ × R
    best index output_index output_score [] = (output_index, output_score)
    best index output_index output_score (x ∷ xs) =
        if numbers.exceeds x output_score
        then best (index + 1) index x xs
        else best (index + 1) output_index output_score xs

    -- `f_fnn_run`, of a network; `none` is the use of an array behind its end, or of a null pointer
    unfoldable pub run : Network R → (input : ℕ) → Option (ℕ × R)
    unfolding forward_propagation best
    run m input = elim (forward_propagation m input) [
      | none ↦ none
      | some activators ↦ elim activators [ [] ↦ none | x ∷ xs ↦ some (best 1 0 x xs) ]
    ]

    -- `p_fnn_gradient_clipping`
    unfoldable pub gradient_clipping : (gradient clipping_gradient_value : R) → R
    gradient_clipping gradient limit =
        if numbers.exceeds gradient limit
        then limit
        else if numbers.exceeds (numbers.negate limit) gradient
        then numbers.negate limit
        else gradient
