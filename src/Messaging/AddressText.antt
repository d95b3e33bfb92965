-- ===== src/Messaging/AddressText.antt =====
-- Address strings, printed and parsed.
use mathlib.Core.List.{append-nil}
use lambda_runtime_api_daemo.Base.{
  ℕ, ◌≡◌, refl, ap, ◌∙◌, inl, inr, true, false, Option, none, some, List, [], ◌∷◌, ◌++◌, arith,
  nat_beq, Bool-cases, nat_eq, All, All-append, Bytes, codes, bytes_eq, split_on, trim_space,
}
use lambda_runtime_api_daemo.Messaging.Address.{
  Parts, only_options, Options, Destination, is_options, split_address, parse_address, resolve,
  default_options,
}

-- The separator does not stand in the text.
abbrev pub Free : ℕ → Bytes → Type 0
Free sep = All (λ c. nat_beq c sep ≡ false)

split_on-Free : (sep : ℕ) (s : Bytes) → Free sep s → split_on sep s ≡ s ∷ []
unfolding split_on
split_on-Free sep [] f = refl
split_on-Free sep (c ∷ s) f = rw (f.0, split_on-Free sep s f.1)

split_on-append :
    (sep : ℕ) (a b : Bytes) → Free sep a → split_on sep (a ++ sep ∷ b) ≡ a ∷ split_on sep b
unfolding split_on
split_on-append sep [] b f = ground (arith)
split_on-append sep (c ∷ a) b f = rw (f.0, split_on-append sep a b f.1)

split_on-cons : (sep : ℕ) (s : Bytes) → (w : Bytes) × (ws : List Bytes) × (split_on sep s ≡ w ∷ ws)
unfolding split_on
split_on-cons sep [] = ([], [], refl)
split_on-cons sep (c ∷ s) =
    let (w, ws, e) = split_on-cons sep s in
    elim (Bool-cases (nat_beq c sep)) [
      | inl t ↦ ([], split_on sep s, rw t)
      | inr f ↦ (c ∷ w, ws, rw (f, e))
    ]

-- A part that may be absent, with its separator before it.
abbrev pub part_text : ℕ → Option Bytes → Bytes
part_text sep none = []
part_text sep (some s) = sep ∷ s

-- <name> [ / <subject> ] [ ; <options> ]
abbrev pub address_text : Bytes → Option Bytes → Option Bytes → Bytes
address_text name subject o = (name ++ part_text b'/' subject) ++ part_text b';' o

abbrev pub FreePart : ℕ → Option Bytes → Type 0
FreePart sep none = Unit
FreePart sep (some s) = Free sep s

abbrev rest_of : Option Bytes → List Bytes
rest_of none = []
rest_of (some s) = s ∷ []

split_on-part :
    (sep : ℕ) (a : Bytes) (p : Option Bytes)
    → Free sep a
    → FreePart sep p
    → split_on sep (a ++ part_text sep p) ≡ a ∷ rest_of p
split_on-part sep a none f g = ap (split_on sep) (append-nil a) ∙ split_on-Free sep a f
split_on-part sep a (some s) f g =
    split_on-append sep a s f ∙ ap (λ ws. a ∷ ws) (split_on-Free sep s g)

Free-part :
    (sep s : ℕ) (a : Bytes) (p : Option Bytes)
    → nat_beq s sep ≡ false
    → Free sep a
    → FreePart sep p
    → Free sep (a ++ part_text s p)
Free-part sep s a none ne f g = All-append (λ c. nat_beq c sep ≡ false) a [] f tt
Free-part sep s a (some t) ne f g = All-append (λ c. nat_beq c sep ≡ false) a (s ∷ t) f (ne, g)

-- What the parts of an address are.
abbrev pub subject_of : Option Bytes → Bytes
subject_of none = []
subject_of (some s) = trim_space s

abbrev pub options_of : Option Bytes → Bytes
options_of none = codes "{}"
options_of (some o) = o

only_options-name : (p : Parts) → is_options p.name ≡ false → only_options p ≡ p
only_options-name p h = rw h

only_options-string :
    (p : Parts) → is_options p.name ≡ true → (only_options p).options_string ≡ p.name
only_options-string p h = rw h

abbrev split_of : Bytes → Bytes → Bytes → Parts
split_of name subject o = record { name = trim_space name; subject = subject; options_string = o }

split_parts :
    (address head name : Bytes) (subject o : Option Bytes)
    → split_on b';' address ≡ head ∷ rest_of o
    → split_on b'/' head ≡ name ∷ rest_of subject
    → split_address address ≡ only_options (split_of name (subject_of subject) (options_of o))
unfolding split_address trim_space
split_parts address head name none none e f = rw (e, f)
split_parts address head name none (some o) e f = rw (e, f)
split_parts address head name (some s) none e f = rw (e, f)
split_parts address head name (some s) (some o) e f = rw (e, f)

split_three :
    (address name a b : Bytes)
    → split_on b';' address ≡ name ∷ a ∷ b ∷ []
    → split_on b'/' name ≡ name ∷ []
    → split_address address ≡ only_options (split_of name [] (codes "{}"))
unfolding split_address trim_space
split_three address name a b e f = rw (e, f)

abbrev pub resolved : Bytes → Bytes → Option Options → Option Destination
resolved name subject none = none
resolved name subject (some o) = some (resolve name subject o)

split_address-address_text :
    (name : Bytes) (subject o : Option Bytes)
    → Free b';' name
    → Free b'/' name
    → FreePart b';' subject
    → FreePart b'/' subject
    → FreePart b';' o
    → is_options (trim_space name) ≡ false
    → split_address (address_text name subject o) ≡ record {
      name = trim_space name;
      subject = subject_of subject;
      options_string = options_of o;
    }
split_address-address_text name subject o n1 n2 s1 s2 o1 plain =
    split_parts (address_text name subject o) (name ++ part_text b'/' subject) name subject o
      (split_on-part b';' (name ++ part_text b'/' subject) o
        (Free-part b';' b'/' name subject refl n1 s1) o1)
      (split_on-part b'/' name subject n2 s2)
    ∙ only_options-name (split_of name (subject_of subject) (options_of o)) plain

-- An address that is put together of a name, a subject and options, the last two or either of them
-- left out, parses to its parts: the name and the subject without white space around them, and
-- the options decoded over the defaults; an error of the decoder is the parser's. The name and
-- subject hold no separator, the options no semicolon, and the name does not look like options.
pub parse_address-address_text :
    (unmarshal : Bytes → Options → Option Options) (name : Bytes) (subject o : Option Bytes)
    → Free b';' name
    → Free b'/' name
    → FreePart b';' subject
    → FreePart b'/' subject
    → FreePart b';' o
    → is_options (trim_space name) ≡ false
    → parse_address unmarshal (address_text name subject o)
      ≡ resolved (trim_space name) (subject_of subject) (unmarshal (options_of o) default_options)
unfolding parse_address
parse_address-address_text unmarshal name subject o n1 n2 s1 s2 o1 plain =
    ap (λ (p : Parts). resolved p.name p.subject (unmarshal p.options_string default_options))
      (split_address-address_text name subject o n1 n2 s1 s2 o1 plain)

-- Options that hold a separator are not read as they are written. With a semicolon in them they are
-- ignored: the defaults are taken in their place. An address that is just options with a slash in
-- them is cut there, and the part before the slash is taken for the options.
split_address_garbled :
    (name a b : Bytes)
    → Free b';' name
    → Free b'/' name
    → Free b';' a
    → Free b'/' a
    → Free b';' b
    → Free b'/' b
    → is_options (trim_space name) ≡ false
    → is_options (trim_space (b'{' ∷ a)) ≡ true
    → ((split_address (name ++ b';' ∷ (a ++ b';' ∷ b))).options_string ≡ codes "{}")
      × ((split_address (b'{' ∷ (a ++ b'/' ∷ b))).options_string ≡ trim_space (b'{' ∷ a))
split_address_garbled name a b n1 n2 a1 a2 b1 b2 plain opts = (
  ap (λ (p : Parts). p.options_string)
      (split_three (name ++ b';' ∷ (a ++ b';' ∷ b)) name a b
          (split_on-append b';' name (a ++ b';' ∷ b) n1
            ∙ ap (λ ws. name ∷ ws)
                (split_on-append b';' a b a1 ∙ ap (λ ws. a ∷ ws) (split_on-Free b';' b b1)))
          (split_on-Free b'/' name n2)
        ∙ only_options-name (split_of name [] (codes "{}")) plain),
  ap (λ (p : Parts). p.options_string)
        (split_parts (b'{' ∷ (a ++ b'/' ∷ b)) (b'{' ∷ (a ++ b'/' ∷ b)) (b'{' ∷ a) (some b) none
          (split_on-Free b';' (b'{' ∷ (a ++ b'/' ∷ b))
            (refl, All-append (λ c. nat_beq c b';' ≡ false) a (b'/' ∷ b) a1 (refl, b1)))
          (split_on-append b'/' (b'{' ∷ a) b (refl, a2)
            ∙ ap (λ ws. (b'{' ∷ a) ∷ ws) (split_on-Free b'/' b b2)))
      ∙ only_options-string (split_of (b'{' ∷ a) (trim_space b) (codes "{}")) opts,
)
