-- ===== src/FeedForward.antt =====
-- The feedforward neural network: src/neural_networks/feedforward_neural_network.c and its header. The numbers are of
-- any type; an array of numbers is a list, and `none` is a null pointer. The corrections and the last updates of the
-- weights and of the bias, and what the values of the neurons hold between two calls, are left out: they are neither
-- written to a stream nor read from one. Memory for an array of weights is memory for its corrections and its last
-- updates too.
pub mod Stream
pub mod Creation
pub mod Forward
mod Examples
use coremio.Prelude.{ℕ, Option, List}

-- `h_activator_function`: a null pointer, a function of the library, or one that was put in its place
pub data Activator : Type 0 where
  no_function hyperbolic_tangent sigmoid rectifier softmax : Activator
  replaced : ℕ → Activator

-- `s_neuron`: how many entries its `values` have, and the weights to the next layer and to its own
pub record Neuron (R : Type 0) : Type 0 where
  pub values : ℕ
  pub weights_to_next_layer : Option (List R)
  pub weights_to_same_layer : Option (List R)

-- `s_neural_layer`
pub record Layer (R : Type 0) : Type 0 where
  pub neurons : List (Neuron R)
  pub depth : ℕ
  pub bias_to_next_layer : Option (List R)
  pub activator_function : Activator

-- `s_fnn`
pub record Network (R : Type 0) : Type 0 where
  pub learning_rate : R
  pub momentum_gradient : R
  pub recent_average_error : R
  pub clipping_gradient : R
  pub learning_epoch : ℕ
  pub layers : List (Layer R)
