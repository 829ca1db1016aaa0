-- ===== src/Runtime.antt =====
-- rust-container/src/tokio_tools.rs: the runtime that a function is run in. The builder is a parameter.
use push_cache.Base.{ℕ, Bool, Text, ◌==◌, if◌then◌else◌}
use push_cache.Error.{io, cancelled, Result, err, Act, call_err, ◌>>=◌}

-- `ThreadRuntime`, and what makes a runtime.
pub record ThreadRuntime : Type 0 where
  pub threads : ℕ
  pub stack_size : ℕ
  pub name : Text

pub record Builder (W : Type 0) : Type 1 where
  pub Runtime : Type 0
  pub new_current_thread : W → Result Text Runtime × W
  -- The threads, their name and the size of their stacks.
  pub new_multi_thread : ℕ → Text → ℕ → W → Result Text Runtime × W
  pub block_on : {A : Type 0} → Runtime → (W → A × W) → W → A × W

module _ {W : Type 0} (builder : Builder W) where
  unfoldable pub rt_multithreaded : ThreadRuntime → Act W builder.Runtime
  rt_multithreaded runtime w = call_err io (
      if runtime.threads == 0
      then builder.new_current_thread w
      else builder.new_multi_thread runtime.threads runtime.name runtime.stack_size w)

  unfoldable pub run_in_tokio : {A : Type 0} → ThreadRuntime → Act W A → Act W A
  run_in_tokio runtime my_function = do
    rt ← rt_multithreaded runtime
    builder.block_on rt my_function

  -- `select!`, by which branch is ready first: the token's, with what the function did until then, or
  -- the function's.
  unfoldable pub run_in_tokio_with_cancel :
      {A : Type 0} → ThreadRuntime → (W → Bool × W) → Act W A → Act W A
  run_in_tokio_with_cancel runtime token_first my_function = run_in_tokio runtime (λ w.
      let (first, w') = token_first w in if first then (err cancelled, w') else my_function w')
