-- ===== src/Examples/Serial.antt =====
-- Texts that are read back: a concrete stand-in for `JSON`, at the types that the storage keeps.
use Prim.Native.Char.{Char, code}
use Prim.Native.String.{String, [], ◌∷◌}
use mathlib.Core.Path.{◌≡◌, refl, ap}
use mathlib.Core.Option
use mathlib.Core.Option.{Option, none, some}
use mathlib.Core.List.{List}
use statora.Prelude.Tests.{nat_eq, if◌then◌else◌}
use statora.Auth.Storage.{Codec}

-- a value in front of a text, and the value and the text read back
pub record Serial {ℓ} (A : Type ℓ) : Type ℓ where
  pub write : A → String → String
  pub read : String → Option (A × String)
  pub read-write : (a : A) (t : String) → read (write a t) ≡ some (a, t)

-- each character after an `x`, and a `.` at the end
abbrev write_text : String → String → String
write_text [] t = "." ∷ t
write_text (c ∷ s) t = "x" ∷ c ∷ write_text s t

abbrev prepend : Char → Option (String × String) → Option (String × String)
prepend c none = none
prepend c (some (s, t)) = some (c ∷ s, t)

abbrev read_text : String → Option (String × String)
read_text [] = none
read_text (c ∷ []) = if nat_eq (code c) b'.' then some ([], []) else none
read_text (c ∷ d ∷ s) =
    let rest = read_text s in if nat_eq (code c) b'.' then some ([], d ∷ s) else prepend d rest

pub read_text-write_text : (s t : String) → read_text (write_text s t) ≡ some (s, t)
read_text-write_text [] [] = refl
read_text-write_text [] (c ∷ t) = refl
read_text-write_text (c ∷ s) t = rw (read_text-write_text s t) refl

abbrev pub text : Serial String
text = record { write = write_text; read = read_text; read-write = read_text-write_text }

module _ {ℓ} {A : Type ℓ} (s : Serial A) where
  abbrev write_option : Option A → String → String
  write_option none t = "-" ∷ t
  write_option (some a) t = "+" ∷ s.write a t

  abbrev some_of : Option (A × String) → Option (Option A × String)
  some_of none = none
  some_of (some (a, t)) = some (some a, t)

  abbrev read_option : String → Option (Option A × String)
  read_option [] = none
  read_option (c ∷ t) = if nat_eq (code c) b'-' then some (none, t) else some_of (s.read t)

  pub read_option-write_option :
      (o : Option A) (t : String) → read_option (write_option o t) ≡ some (o, t)
  read_option-write_option none t = refl
  read_option-write_option (some a) t = rw (s.read-write a t) refl

  abbrev pub option : Serial (Option A)
  option = record {
    write = write_option;
    read = read_option;
    read-write = read_option-write_option;
  }

  abbrev parsed : String → Option A
  parsed [] = none
  parsed (c ∷ t) = Option.map (λ r. r.0) (s.read t)

  abbrev pub codec : Codec A
  codec = record {
    stringify = λ a. "#" ∷ s.write a [];
    parse = parsed;
    parse-stringify = λ a. rw (s.read-write a []) refl;
    stringify_truthy = λ a. refl;
  }

module _ {ℓ} {A : Type ℓ} (s : Serial A) where
  -- xs many characters xs there are elements
  abbrev marks : List A → String
  marks List.[] = []
  marks (List.◌∷◌ a xs) = "x" ∷ marks xs

  abbrev write_items : List A → String → String
  write_items List.[] t = t
  write_items (List.◌∷◌ a xs) t = s.write a (write_items xs t)

  abbrev put_first : A → Option (List A × String) → Option (List A × String)
  put_first a none = none
  put_first a (some (xs, t)) = some (List.◌∷◌ a xs, t)

  abbrev read_next :
      (String → Option (List A × String)) → Option (A × String) → Option (List A × String)
  read_next more none = none
  read_next more (some (a, rest)) = put_first a (more rest)

  abbrev read_items : String → String → Option (List A × String)
  read_items [] t = some (List.[], t)
  read_items (c ∷ cs) t = read_next (λ rest. read_items cs rest) (s.read t)

  read_items-write_items :
      (xs : List A) (t : String) → read_items (marks xs) (write_items xs t) ≡ some (xs, t)
  read_items-write_items List.[] t = refl
  read_items-write_items (List.◌∷◌ a xs) t =
      rw (s.read-write a (write_items xs t)) (rw (read_items-write_items xs t) refl)

  abbrev items_of : Option (String × String) → Option (List A × String)
  items_of none = none
  items_of (some (cs, t)) = read_items cs t

  pub list_law :
      (xs : List A) (t : String)
      → items_of (text.read (text.write (marks xs) (write_items xs t))) ≡ some (xs, t)
  list_law xs t = rw (text.read-write (marks xs) (write_items xs t)) (read_items-write_items xs t)

  abbrev pub list : Serial (List A)
  list = record {
    write = λ xs t. text.write (marks xs) (write_items xs t);
    read = λ t. items_of (text.read t);
    read-write = list_law;
  }

module _ {ℓ κ} {A : Type ℓ} {B : Type κ} (s : Serial A) where
  module _ (r : Serial B) where
    abbrev second : Option (A × String) → Option ((A × B) × String)
    second none = none
    second (some (a, t)) = Option.map (λ p. ((a, p.0), p.1)) (r.read t)

    pub pair_law :
        (p : A × B) (t : String) → second (s.read (s.write p.0 (r.write p.1 t))) ≡ some (p, t)
    pair_law (a, b) t = rw (s.read-write a (r.write b t)) (rw (r.read-write b t) refl)

    abbrev pub pair : Serial (A × B)
    pair = record {
      write = λ p t. s.write p.0 (r.write p.1 t);
      read = λ t. second (s.read t);
      read-write = pair_law;
    }

  -- a type whose values are kept as values of another
  module _ (f : B → A) (g : A → B) (same : (b : B) → g (f b) ≡ b) where
    pub via_law :
        (b : B) (t : String)
        → Option.map {B = B × String} (λ (p : A × String). (g p.0, p.1)) (s.read (s.write (f b) t))
          ≡ some (b, t)
    via_law b t = rw (s.read-write (f b) t) (ap (λ x. some (x, t)) (same b))

    abbrev pub via : Serial B
    via = record {
      write = λ b t. s.write (f b) t;
      read = λ t. Option.map {B = B × String} (λ (p : A × String). (g p.0, p.1)) (s.read t);
      read-write = via_law;
    }
