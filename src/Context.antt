-- ===== src/Context.antt =====
-- Go's `context.Context`, as far as the code looks at it: `ctx.Err()` is asked again and again, and
-- somebody else may cancel between two questions. `err_at n` is what the n-th question answers.
use migra_go.Prelude.{ℕ, suc, Bool}

pub record Context : Type 0 where
  pub err_at : ℕ → Bool
  pub polls : ℕ

-- Whether `ctx.Err()` is not nil, at the next question.
abbrev pub err : Context → Bool
err ctx = ctx.err_at ctx.polls

abbrev pub polled : Context → Context
polled ctx = record ctx { polls = suc ctx.polls }
