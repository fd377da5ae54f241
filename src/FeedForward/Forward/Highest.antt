-- ===== src/FeedForward/Forward/Highest.antt =====
-- A run stays inside of the arrays and gives the highest activator.
use coremio.Prelude.{ℕ, ◌≡◌, true, false, Option, none, some, List, [], ◌∷◌, length}
use coremio.FeedForward.{Neuron, Layer}
use coremio.FeedForward.Forward.{Numbers, at, have_values}

module _ {R : Type 0} (numbers : Numbers R) where
  -- no number of a list exceeds another
  abbrev pub NoneExceeds : R → List R → Type 0
  NoneExceeds s [] = Unit
  NoneExceeds s (x ∷ xs) = (numbers.exceeds x s ≡ false) × NoneExceeds s xs

  -- an index of a list, with its number, which no other exceeds
  pub record IsHighest (xs : List R) (found : ℕ × R) : Type 0 where
    pub there : at found.0 xs ≡ some found.1
    pub highest : NoneExceeds found.1 xs

  -- an array of a size
  abbrev pub Linked : ℕ → Option (List R) → Type 0
  Linked n none = ⊥
  Linked n (some xs) = length xs ≡ n

  abbrev pub AllLinked : ℕ → List (Neuron R) → Type 0
  AllLinked n [] = Unit
  AllLinked n (neuron ∷ neurons) = Linked n neuron.weights_to_next_layer × AllLinked n neurons

  -- each layer has a bias and weights for each neuron of the next
  abbrev pub Connected : Layer R → List (Layer R) → Type 0
  Connected l [] = Unit
  Connected l (next ∷ layers) =
      Linked (length next.neurons) l.bias_to_next_layer
      × AllLinked (length next.neurons) l.neurons
      × Connected next layers

  -- each neuron of the layers has an activator
  abbrev pub Valued : List (Layer R) → Type 0
  Valued [] = Unit
  Valued (l ∷ layers) = (have_values numbers l.neurons ≡ true) × Valued layers

  abbrev pub last_size : Layer R → List (Layer R) → ℕ
  last_size l [] = length l.neurons
  last_size l (next ∷ layers) = last_size next layers

  -- a list of a length
  abbrev Gives : ℕ → Option (List R) → Type 0
  Gives n o = (xs : List R) × (o ≡ some xs) × (length xs ≡ n)
