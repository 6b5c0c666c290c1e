-- ===== src/Sources/Answers.antt =====
-- What a call of a source gives: a value, or an error.
use alice_lg.Common.Texts.{Text}

pub data Answer (A : Type 0) : Type 0 where
  answer : A → Answer A
  failed : Text → Answer A

infixl 5 ◌>>=◌
abbrev pub ◌>>=◌ : {A B : Type 0} → Answer A → (A → Answer B) → Answer B
answer a >>= f = f a
failed e >>= f = failed e
