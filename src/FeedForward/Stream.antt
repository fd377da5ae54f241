-- ===== src/FeedForward/Stream.antt =====
-- `f_fnn_dump_model` and `f_fnn_load_model`: a network on a stream. A stream is what the formats write and read one
-- after the other: `%zu`, `%lf` and `%c`; the white space between them, of which a format also skips what stands behind
-- the model, is no part of it. `reread` is what `%lf` reads of a number that it wrote. The arrays whose sizes are
-- read fit in a word.
pub mod RoundTrip
use coremio.Prelude.{
  ℕ, zero, suc, Bool, true, false, Option, none, some, List, [], ◌∷◌, ◌++◌, if◌then◌else◌, ltb,
  length,
}
use coremio.FeedForward.{hyperbolic_tangent, Neuron, Layer, Network}

-- what stands on the stream; `unknown` is what is read behind the end of an array
pub data Item (R : Type 0) : Type 0 where
  count : ℕ → Item R
  real : R → Item R
  letter : Bool → Item R
  unknown : Item R

module _ {R : Type 0} where
  -- the first numbers of an array
  unfoldable pub items : ℕ → List R → List (Item R)
  items zero xs = []
  items (suc n) [] = unknown ∷ items n []
  items (suc n) (x ∷ xs) = real x ∷ items n xs

  -- an array of a size, or 0 for a null pointer
  unfoldable pub dump_counted : ℕ → Option (List R) → List (Item R)
  unfolding items
  dump_counted n none = count 0 ∷ []
  dump_counted n (some xs) = count n ∷ items n xs

  -- the weights to the next layer, of each neuron
  unfoldable pub dump_next : ℕ → List (Neuron R) → List (Item R)
  unfolding dump_counted
  dump_next n [] = []
  dump_next n (neuron ∷ neurons) =
      dump_counted n neuron.weights_to_next_layer ++ dump_next n neurons

  -- `Y` and an array, or `N` for a null pointer
  unfoldable pub dump_lettered : ℕ → Option (List R) → List (Item R)
  unfolding items
  dump_lettered n none = letter false ∷ []
  dump_lettered n (some xs) = letter true ∷ items n xs

  -- the weights to the same layer, of each neuron
  unfoldable pub dump_same : ℕ → List (Neuron R) → List (Item R)
  unfolding dump_lettered
  dump_same n [] = []
  dump_same n (neuron ∷ neurons) =
      dump_lettered n neuron.weights_to_same_layer ++ dump_same n neurons

  -- the bias, before the layers behind
  unfoldable pub dump_bias : Option (List R) → List (Layer R) → List (Item R)
  unfolding dump_counted
  dump_bias none layers = count 0 ∷ []
  dump_bias (some bias) [] = unknown ∷ []
  dump_bias (some bias) (next ∷ layers) = dump_counted (length next.neurons) (some bias)

  -- the weights to the next layer, if there is one
  unfoldable pub dump_weights : List (Neuron R) → List (Layer R) → List (Item R)
  unfolding dump_next
  dump_weights neurons [] = []
  dump_weights neurons (next ∷ layers) = dump_next (length next.neurons) neurons

  -- a layer, before the layers behind it
  unfoldable pub dump_layer : Layer R → List (Layer R) → List (Item R)
  unfolding dump_bias dump_weights dump_same
  dump_layer l layers =
      count (length l.neurons)
      ∷ count l.depth
      ∷ (dump_bias l.bias_to_next_layer layers
          ++ (dump_weights l.neurons layers
              ++ (if ltb 1 l.depth then dump_same (length l.neurons) l.neurons else [])))

  unfoldable pub dump_layers : List (Layer R) → List (Item R)
  unfolding dump_layer
  dump_layers [] = []
  dump_layers (l ∷ layers) = dump_layer l layers ++ dump_layers layers

  -- `f_fnn_dump_model`
  unfoldable pub dump_model : Network R → List (Item R)
  unfolding dump_layers
  dump_model m =
      count (length m.layers)
      ∷ real m.learning_rate
      ∷ real m.momentum_gradient
      ∷ dump_layers m.layers

-- the end of a read: what was read and the rest of the stream; a failed allocation; or a format that reads nothing
pub data Load (R A : Type 0) : Type 0 where
  loaded : A → List (Item R) → Load R A
  no_memory unread : Load R A

-- an allocation: the layers, the neurons of a layer, its bias, or the weights of a neuron, with how many layers and
-- neurons are still to come
pub data Allocation : Type 0 where
  the_layers : Allocation
  the_neurons the_bias : ℕ → Allocation
  to_next to_same : ℕ → ℕ → Allocation

module _ {R A B : Type 0} where
  abbrev pub and_then : Load R A → (A → List (Item R) → Load R B) → Load R B
  and_then (loaded a rest) next = next a rest
  and_then no_memory next = no_memory
  and_then unread next = unread

module _ {R : Type 0} (reread : R → R) where
  -- `%zu`, `%lf` and `%c`
  abbrev pub load_count : List (Item R) → Load R ℕ
  load_count (count n ∷ rest) = loaded n rest
  load_count _ = unread

  abbrev pub load_real : List (Item R) → Load R R
  load_real (real x ∷ rest) = loaded (reread x) rest
  load_real _ = unread

  abbrev pub load_letter : List (Item R) → Load R Bool
  load_letter (letter b ∷ rest) = loaded b rest
  load_letter _ = unread

  unfoldable pub load_reals : ℕ → List (Item R) → Load R (List R)
  load_reals zero stream = loaded [] stream
  load_reals (suc n) stream =
      and_then (load_real stream)
        λ x rest. and_then (load_reals n rest) λ xs rest'. loaded (x ∷ xs) rest'

  -- an array behind its size, null if that is 0
  unfoldable pub load_counted : Bool → List (Item R) → Load R (Option (List R))
  unfolding load_reals
  load_counted memory stream = and_then (load_count stream) λ n rest.
      if ltb 0 n
      then (if memory
          then (and_then (load_reals n rest) λ xs rest'. loaded (some xs) rest')
          else no_memory)
      else loaded none rest

  -- an array of a size behind a `Y`, null behind another letter
  unfoldable pub load_lettered : Bool → ℕ → List (Item R) → Load R (Option (List R))
  unfolding load_reals
  load_lettered memory n stream = and_then (load_letter stream) λ is_there rest.
      if is_there
      then (if memory
          then (and_then (load_reals n rest) λ xs rest'. loaded (some xs) rest')
          else no_memory)
      else loaded none rest

  -- the arrays of some neurons, each by a reader
  unfoldable pub load_each :
      (ℕ → List (Item R) → Load R (Option (List R)))
      → ℕ
      → List (Item R)
      → Load R (List (Option (List R)))
  load_each load zero stream = loaded [] stream
  load_each load (suc n) stream =
      and_then (load n stream)
        λ xs rest. and_then (load_each load n rest) λ xss rest'. loaded (xs ∷ xss) rest'

  -- null pointers, where nothing is read
  unfoldable pub nothing : ℕ → List (Option (List R))
  nothing zero = []
  nothing (suc n) = none ∷ nothing n

  -- the neurons with their arrays; the `values` of each have as many entries as the layer has depth
  unfoldable pub combine :
      (depth : ℕ) → List (Option (List R)) → List (Option (List R)) → List (Neuron R)
  combine depth (n ∷ nexts) (s ∷ sames) =
      record { values = depth; weights_to_next_layer = n; weights_to_same_layer = s }
      ∷ combine depth nexts sames
  combine depth _ _ = []

  -- a layer, with how many come behind it
  unfoldable pub load_layer : (Allocation → Bool) → ℕ → List (Item R) → Load R (Layer R)
  unfolding load_counted load_lettered load_each nothing combine
  load_layer memory behind stream = and_then (load_count stream) λ size rest.
      and_then (load_count rest) λ depth rest.
        if memory (the_neurons behind)
        then (and_then (load_counted (memory (the_bias behind)) rest) λ bias rest.
            and_then
              (if ltb 0 behind
                then load_each (λ i. load_counted (memory (to_next behind i))) size rest
                else loaded (nothing size) rest)
              λ nexts rest.
                and_then
                  (if ltb 1 depth
                    then load_each (λ i. load_lettered (memory (to_same behind i)) size) size rest
                    else loaded (nothing size) rest)
                  λ sames rest.
                    loaded
                      (record {
                        neurons = combine depth nexts sames;
                        depth = depth;
                        bias_to_next_layer = bias;
                        activator_function = hyperbolic_tangent;
                      })
                      rest)
        else no_memory

  unfoldable pub load_layers : (Allocation → Bool) → ℕ → List (Item R) → Load R (List (Layer R))
  unfolding load_layer
  load_layers memory zero stream = loaded [] stream
  load_layers memory (suc n) stream =
      and_then (load_layer memory n stream)
        λ l rest. and_then (load_layers memory n rest) λ layers rest'. loaded (l ∷ layers) rest'

  -- `f_fnn_load_model`; `clipping_gradient` is `d_fnn_clipping_gradient`, and `zeroed` what `memset` leaves
  unfoldable pub load_model :
      (clipping_gradient zeroed : R) → (Allocation → Bool) → List (Item R) → Load R (Network R)
  unfolding load_layers
  load_model clipping_gradient zeroed memory stream = and_then (load_count stream) λ n rest.
      and_then (load_real rest) λ learning_rate rest.
        and_then (load_real rest) λ momentum_gradient rest.
          if memory the_layers
          then (and_then (load_layers memory n rest) λ layers rest.
              loaded
                (record {
                  learning_rate = learning_rate;
                  momentum_gradient = momentum_gradient;
                  recent_average_error = zeroed;
                  clipping_gradient = clipping_gradient;
                  learning_epoch = 0;
                  layers = layers;
                })
                rest)
          else no_memory
