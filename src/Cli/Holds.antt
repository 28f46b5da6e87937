-- ===== src/Cli/Holds.antt =====
-- What holds of every option record that a step may set holds of the one it returns.
use sora_transport.Prelude.{◌≡◌, refl, ◌∙◌, subst, some, List, [], ◌∷◌, arith}
use sora_transport.Prelude.Result.{Result, ok, err, ◌>>=◌, >>=-ok}
use sora_transport.Prelude.Text.{Text}
use sora_transport.Cli.{CliError, RuntimeOptions, Numbers}
use sora_transport.Cli.Arguments.{with_value}

module _ (P : RuntimeOptions → Type 0) where
  pub bind_holds :
      {A : Type 0} (m : Result CliError A) (g : A → RuntimeOptions) (q : RuntimeOptions)
      → ((a : A) → m ≡ ok a → P (g a))
      → (m >>= λ a. ok (g a)) ≡ ok q
      → P q
  bind_holds (ok a) g q h e = let same : g a ≡ q = ground (arith, e) in subst P same (h a refl)
  bind_holds (err x) g q h e = absurd (ground (arith, e))

module _ (numbers : Numbers) (P : RuntimeOptions → Type 0) where
  pub with_value_holds :
      (rest left : List Text) (f : Text → Result CliError RuntimeOptions) (o : RuntimeOptions)
      → ((t : Text) (p : RuntimeOptions) → f t ≡ ok p → P p)
      → with_value numbers rest f ≡ ok (some (o, left))
      → P o
  with_value_holds [] left f o h e = absurd (ground (arith, e))
  with_value_holds (v ∷ rest) left f o h e =
      let a = >>=-ok (f v) (λ options. ok (some (options, rest))) e in
      h v o (a.1 ∙ ground (arith, a.2))
