-- ===== src/Tests/Codes.antt =====
-- A serialiser for the tests: prefix codes on lists of numbers, with their round trip.
use memable.Prelude.{
  ℕ, zero, suc, ◌≡◌, refl, sym, ap, ◌∙◌, ◌⊎◌, inl, inr, Option, none, some, [], ◌∷◌, ◌++◌,
  append_assoc, length, List,
}
use memable.Text.{Text}
use memable.External.{Format}

pub record Code (A : Type 0) : Type 0 where
  pub enc : A → Text
  pub dec : Text → Option (A × Text)
  pub law : (a : A) (rest : Text) → dec (enc a ++ rest) ≡ some (a, rest)

append_nil : (l : Text) → l ++ [] ≡ l
append_nil [] = refl
append_nil (e ∷ l) = ap (λ r. e ∷ r) (append_nil l)

abbrev finish : {A : Type 0} → Option (A × Text) → Text ⊎ A
finish none = inl []
finish (some (a, _)) = inr a

pub from_enc :
    {A : Type 0} (c : Code A) (a : A) (b : Text)
    → ◌≡◌ {A = Text ⊎ Text} (inr (c.enc a)) (inr b)
    → finish (c.dec b) ≡ inr a
from_enc c a b e =
    let same : c.enc a ≡ b = cc e in
    ap (λ t. finish (c.dec t)) (sym same ∙ sym (append_nil (c.enc a))) ∙ ap finish (c.law a [])

abbrev pub format : {A : Type 0} → Code A → Format A
format c = record {
  to_allocvec = λ a. inr (c.enc a);
  from_bytes = λ b. finish (c.dec b);
  round_trip = λ a b e. from_enc c a b e;
}

abbrev number_dec : Text → Option (ℕ × Text)
number_dec [] = none
number_dec (n ∷ rest) = some (n, rest)

abbrev pub number : Code ℕ
number = record { enc = λ n. n ∷ []; dec = number_dec; law = λ n rest. refl }

abbrev pub nothing : Code (Unit {0})
nothing = record { enc = λ _. []; dec = λ t. some (tt, t); law = λ u rest. refl }

abbrev take_dec : ℕ → Text → Option (Text × Text)
take_dec zero t = some ([], t)
take_dec (suc n) [] = none
take_dec (suc n) (c ∷ t) = elim (take_dec n t) [ none ↦ none | some (a, b) ↦ some (c ∷ a, b) ]

pub take_lem : (a rest : Text) → take_dec (length a) (a ++ rest) ≡ some (a, rest)
take_lem [] rest = refl
take_lem (c ∷ a) rest = rw (take_lem a rest) refl

abbrev text_dec : Text → Option (Text × Text)
text_dec [] = none
text_dec (n ∷ t) = take_dec n t

abbrev pub string : Code Text
string = record { enc = λ a. length a ∷ a; dec = text_dec; law = λ a rest. take_lem a rest }

module _ {A B : Type 0} (c : Code A) (d : Code B) where
  abbrev paired : A → Option (B × Text) → Option ((A × B) × Text)
  paired a none = none
  paired a (some (b, u)) = some ((a, b), u)

  abbrev second : Option (A × Text) → Option ((A × B) × Text)
  second none = none
  second (some (a, t)) = paired a (d.dec t)

  pub both_lem :
      (a : A) (b : B) (rest : Text)
      → second (c.dec ((c.enc a ++ d.enc b) ++ rest)) ≡ some ((a, b), rest)
  both_lem a b rest =
      rw (append_assoc (c.enc a) (d.enc b) rest, c.law a (d.enc b ++ rest))
        (ap (paired a) (d.law b rest))

  abbrev pub both : Code (A × B)
  both = record {
    enc = λ (a, b). c.enc a ++ d.enc b;
    dec = λ t. second (c.dec t);
    law = λ (a, b) rest. both_lem a b rest;
  }

  abbrev left : Option (A × Text) → Option ((A ⊎ B) × Text)
  left none = none
  left (some (a, t)) = some (inl a, t)

  abbrev right : Option (B × Text) → Option ((A ⊎ B) × Text)
  right none = none
  right (some (b, t)) = some (inr b, t)

  abbrev either_enc : A ⊎ B → Text
  either_enc (inl a) = 0 ∷ c.enc a
  either_enc (inr b) = 1 ∷ d.enc b

  abbrev either_dec : Text → Option ((A ⊎ B) × Text)
  either_dec [] = none
  either_dec (zero ∷ t) = left (c.dec t)
  either_dec (suc n ∷ t) = right (d.dec t)

  pub either_lem : (s : A ⊎ B) (rest : Text) → either_dec (either_enc s ++ rest) ≡ some (s, rest)
  either_lem (inl a) rest = rw (c.law a rest) refl
  either_lem (inr b) rest = rw (d.law b rest) refl

  abbrev pub either : Code (A ⊎ B)
  either = record { enc = either_enc; dec = either_dec; law = either_lem }

module _ {A B : Type 0} (c : Code A) (to : B → A) (back : A → B)
    (law : (b : B) → back (to b) ≡ b) where
  abbrev through : Option (A × Text) → Option (B × Text)
  through none = none
  through (some (a, t)) = some (back a, t)

  pub along_lem : (b : B) (rest : Text) → through (c.dec (c.enc (to b) ++ rest)) ≡ some (b, rest)
  along_lem b rest = rw (c.law (to b) rest, law b) refl

  abbrev pub along : Code B
  along = record { enc = λ b. c.enc (to b); dec = λ t. through (c.dec t); law = along_lem }

module _ {A : Type 0} (c : Code A) where
  abbrev each : List A → Text
  each [] = []
  each (a ∷ rest) = c.enc a ++ each rest

  abbrev cons : A → Option (List A × Text) → Option (List A × Text)
  cons a none = none
  cons a (some (rest, t)) = some (a ∷ rest, t)

  abbrev many_dec : ℕ → Text → Option (List A × Text)
  many_dec zero t = some ([], t)
  many_dec (suc n) t = elim (c.dec t) [ none ↦ none | some (a, u) ↦ cons a (many_dec n u) ]

  pub many_lem : (l : List A) (rest : Text) → many_dec (length l) (each l ++ rest) ≡ some (l, rest)
  many_lem [] rest = refl
  many_lem (a ∷ l) rest =
      rw (append_assoc (c.enc a) (each l) rest, c.law a (each l ++ rest))
        (ap (cons a) (many_lem l rest))

  abbrev counted : Text → Option (List A × Text)
  counted [] = none
  counted (n ∷ t) = many_dec n t

  abbrev pub many : Code (List A)
  many = record { enc = λ l. length l ∷ each l; dec = counted; law = λ l rest. many_lem l rest }
