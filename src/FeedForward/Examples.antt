-- ===== src/FeedForward/Examples.antt =====
-- A small network: tests of src/neural_networks/feedforward_neural_network.c, and instances of the theorems on it.
use coremio.Prelude.{ℕ, ltb, ◌+◌, ◌/◌, ◌*◌, ◌≡◌, refl, true, none, some, [], ◌∷◌, ◌++◌, arith}
use coremio.FeedForward.{sigmoid, Network}
use coremio.FeedForward.Stream.{
  count, real, letter, loaded, dump_model, load_model, items, dump_counted, dump_next,
  dump_lettered, dump_same, dump_bias, dump_weights, dump_layer, dump_layers,
}
use coremio.FeedForward.Forward.{
  Numbers, forward_propagation, propagate, before_integral, weighted, accumulated, have_values,
  input_activators, best, run, gradient_clipping,
}
use coremio.FeedForward.Creation.{Draws, new}
use coremio.FeedForward.Creation.Shape.{Made, new-Made}
use coremio.FeedForward.Stream.RoundTrip.{LayersFit, reread_network, load_model-dump_model}

-- two neurons before one; a number is written in tens
abbrev small : Network ℕ
small = record {
  learning_rate = 12;
  momentum_gradient = 20;
  recent_average_error = 3;
  clipping_gradient = 4;
  learning_epoch = 9;
  layers =
      record {
        neurons =
            record {
              values = 1;
              weights_to_next_layer = some (35 ∷ []);
              weights_to_same_layer = none;
            }
            ∷ record {
              values = 1;
              weights_to_next_layer = some (40 ∷ []);
              weights_to_same_layer = none;
            }
            ∷ [];
        depth = 1;
        bias_to_next_layer = some (7 ∷ []);
        activator_function = sigmoid;
      }
      ∷ record {
        neurons =
            record {
              values = 2;
              weights_to_next_layer = none;
              weights_to_same_layer = some (5 ∷ []);
            }
            ∷ [];
        depth = 2;
        bias_to_next_layer = none;
        activator_function = sigmoid;
      }
      ∷ [];
}

abbrev to_tens : ℕ → ℕ
to_tens n = n / 10 * 10

test_dump :
    dump_model small
    ≡ count 2
      ∷ real 12
      ∷ real 20
      ∷ count 2
      ∷ count 1
      ∷ count 1
      ∷ real 7
      ∷ count 1
      ∷ real 35
      ∷ count 1
      ∷ real 40
      ∷ count 1
      ∷ count 2
      ∷ count 0
      ∷ letter true
      ∷ real 5
      ∷ []
unfolding dump_model dump_layers dump_layer dump_bias dump_weights dump_next dump_counted dump_same
    dump_lettered items
test_dump = refl

LayersFit-small : LayersFit small.layers
LayersFit-small = (
  (refl, omega arith),
  ((refl, omega arith), ((refl, omega arith), tt)),
  (refl, (refl, tt)),
  (refl, (refl, tt)),
  (refl, (refl, tt), (refl, tt), (refl, tt), tt),
)

load_model-dump_model_example :
    load_model to_tens 85 0 (λ _. true) (dump_model small ++ count 3 ∷ [])
    ≡ loaded (reread_network to_tens 85 0 small) (count 3 ∷ [])
load_model-dump_model_example =
    load_model-dump_model to_tens 85 0 small (count 3 ∷ []) LayersFit-small

abbrev draws : Draws ℕ
draws elements same_layer layer neuron weight = elements + neuron

new-Made_example :
    Made 0 draws (2 ∷ 0 ∷ 1 ∷ []) (new 0 draws true (λ _. true) 85 12 20 (2 ∷ 0 ∷ 1 ∷ []))
new-Made_example =
    new-Made 0 draws 85 12 20 (2 ∷ 0 ∷ 1 ∷ []) (omega arith)
      (omega arith, (omega arith, (omega arith, tt)))

-- natural numbers, with 0 for -1
abbrev naturals : Numbers ℕ
naturals = record {
  zeroed = 0;
  one = 1;
  minus_one = 0;
  add = λ a b. a + b;
  multiply = λ a b. a * b;
  exponential = λ a. a;
  negate = λ a. 0;
  exceeds = λ a b. ltb b a;
  activator = λ function sum a. a;
}

abbrev two_layers : Network ℕ
two_layers = record {
  learning_rate = 1;
  momentum_gradient = 1;
  recent_average_error = 3;
  clipping_gradient = 4;
  learning_epoch = 9;
  layers =
      record {
        neurons =
            record {
              values = 1;
              weights_to_next_layer = some (3 ∷ 9 ∷ []);
              weights_to_same_layer = none;
            }
            ∷ [];
        depth = 1;
        bias_to_next_layer = some (1 ∷ 1 ∷ []);
        activator_function = sigmoid;
      }
      ∷ record {
        neurons =
            record { values = 1; weights_to_next_layer = none; weights_to_same_layer = none }
            ∷ record { values = 1; weights_to_next_layer = none; weights_to_same_layer = none }
            ∷ [];
        depth = 1;
        bias_to_next_layer = none;
        activator_function = sigmoid;
      }
      ∷ [];
}

test_run : run naturals two_layers 0 ≡ some (1, 10)
unfolding run forward_propagation propagate before_integral weighted accumulated have_values
    input_activators best
test_run = refl

test_clipping : gradient_clipping naturals 9 5 ≡ 5
unfolding gradient_clipping
test_clipping = refl
