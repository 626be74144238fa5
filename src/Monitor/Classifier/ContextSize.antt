-- ===== src/Monitor/Classifier/ContextSize.antt =====
-- The size of the context window that src/monitor/classifier.rs infers from a model's name.
use palingenesis.Prelude.{ℕ, ◌≡◌, refl, true, List, [], ◌∷◌, ◌++◌, arith}
use palingenesis.Prelude.Text.{Text, codes, starts_with, contains}
use palingenesis.Prelude.Float.{FloatOps}
use palingenesis.Monitor.Classifier.Types.{StopReasonClassifier, gpt4, gpt4_turbo}
use palingenesis.Monitor.Classifier.Detect.{Outside, infer_from}

starts_with-append : (s t u : Text) → starts_with s (t ++ u) ≡ true → starts_with s t ≡ true
unfolding starts_with
starts_with-append s [] u h = refl
starts_with-append [] (d ∷ t) u h = h
starts_with-append (c ∷ s) (d ∷ t) u h = ground (arith, starts_with-append s t u)

-- A text that contains a longer name contains what the name begins with.
contains-append : (s t u : Text) → contains s (t ++ u) ≡ true → contains s t ≡ true
unfolding contains
contains-append [] [] u h = refl
contains-append [] (d ∷ t) u h = h
contains-append (c ∷ s) t u h =
    ground (arith, starts_with-append (c ∷ s) t u, contains-append s t u)

module _ {F : Type 0} (fl : FloatOps F) (out : Outside) (c : StopReasonClassifier F) where
  -- The inferred size depends on the order in which the hash map of known sizes is iterated over:
  -- for every content, in lower case, that names gpt-4 turbo, an order that meets gpt-4 turbo
  -- first gives 128000 tokens, and one that meets gpt-4 first gives 8192.
  pub infer_depends_on_order :
      (content_lower : Text)
      → contains content_lower (codes "gpt-4 turbo") ≡ true
      → (rest : List (Text × ℕ))
      → (infer_from fl out c content_lower (gpt4_turbo ∷ gpt4 ∷ rest) ≡ 128_000)
        × (infer_from fl out c content_lower (gpt4 ∷ gpt4_turbo ∷ rest) ≡ 8_192)
  unfolding infer_from codes
  infer_depends_on_order s h rest =
      (rw h, rw (contains-append s (codes "gpt-4") (codes " turbo") h))
