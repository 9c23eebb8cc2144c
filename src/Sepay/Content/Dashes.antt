-- ===== src/Sepay/Content/Dashes.antt =====
-- The dashes of a UUID, which some banks drop from the content of a transfer.
use metro_backend.Prelude.{
  ℕ, ◌≡◌, refl, sym, ap, ◌∙◌, true, not, ◌==◌, List, [], ◌∷◌, ◌++◌, Text, All, arith, length, keep,
  take, take-append, drop-append, keep-append,
}
use mathlib.Core.List.{append-nil}
use metro_backend.Sepay.Content.{Atom, letter, hexes, is_hex, matches, uuid, plain, uuid_format}
use metro_backend.Sepay.Content.Match.{Fits}
use metro_backend.Sepay.Content.Named.{IsHex, Fits-IsHex}

-- The characters of a text that are no dashes.
unfoldable pub without_dashes : Text → Text
without_dashes = keep (λ c. not (c == b'-'))

Fits-append :
    (ps bs : List Atom) (t : Text)
    → Fits (ps ++ bs) t
    → (x : Text) × (y : Text) × (t ≡ x ++ y) × Fits ps x × Fits bs y
Fits-append [] bs t h = ([], t, refl, tt, h)
Fits-append (a ∷ ps) bs [] h = elim h [ ]
Fits-append (a ∷ ps) bs (c ∷ t) h =
    let (x, y, e, hx, hy) = Fits-append ps bs t h.1 in (c ∷ x, y, ap (λ r. c ∷ r) e, (h.0, hx), hy)

length-Fits : (ps : List Atom) (x : Text) → Fits ps x → length x ≡ length ps
length-Fits [] [] h = refl
length-Fits [] (c ∷ x) h = elim h [ ]
length-Fits (a ∷ ps) [] h = elim h [ ]
length-Fits (a ∷ ps) (c ∷ x) h = omega (arith, length-Fits ps x h.1)

is_dash : (c : ℕ) → matches (letter b'-') c ≡ true → c ≡ b'-'
is_dash c h = ground arith

-- The five groups of digits of an id, with the dashes between them.
record Groups (t : Text) : Type 0 where
  a : Text
  b : Text
  c : Text
  d : Text
  e : Text
  a_fits : Fits (hexes 8) a
  b_fits : Fits (hexes 4) b
  c_fits : Fits (hexes 4) c
  d_fits : Fits (hexes 4) d
  e_fits : Fits (hexes 12) e
  joined : t ≡ a ++ (b'-' ∷ b ++ (b'-' ∷ c ++ (b'-' ∷ d ++ b'-' ∷ e)))

after_dash :
    (atoms : List Atom) (t : Text)
    → Fits (letter b'-' ∷ atoms) t
    → (y : Text) × (t ≡ b'-' ∷ y) × Fits atoms y
after_dash atoms [] h = elim h [ ]
after_dash atoms (c ∷ t) h = (t, ap (λ x. x ∷ t) (is_dash c h.0), h.1)

group_dash :
    (n : ℕ) (atoms : List Atom) (t : Text)
    → Fits (hexes n ++ letter b'-' ∷ atoms) t
    → (x : Text) × (y : Text) × (t ≡ x ++ b'-' ∷ y) × Fits (hexes n) x × Fits atoms y
group_dash n atoms t h =
    let (x, z, e, hx, hz) = Fits-append (hexes n) (letter b'-' ∷ atoms) t h in
    let (y, f, hy) = after_dash atoms z hz in (x, y, e ∙ ap (λ r. x ++ r) f, hx, hy)

Groups-uuid : (t : Text) → Fits uuid t → Groups t
Groups-uuid t h =
    let (a, t1, e1, ha, h1) =
      group_dash 8
        (hexes 4 ++ (letter b'-' ∷ hexes 4 ++ (letter b'-' ∷ hexes 4 ++ (letter b'-' ∷ hexes 12))))
        t h in
    let (b, t2, e2, hb, h2) =
      group_dash 4 (hexes 4 ++ (letter b'-' ∷ hexes 4 ++ (letter b'-' ∷ hexes 12))) t1 h1 in
    let (c, t3, e3, hc, h3) = group_dash 4 (hexes 4 ++ (letter b'-' ∷ hexes 12)) t2 h2 in
    let (d, e, e4, hd, he) = group_dash 4 (hexes 12) t3 h3 in
    record {
      a = a;
      b = b;
      c = c;
      d = d;
      e = e;
      a_fits = ha;
      b_fits = hb;
      c_fits = hc;
      d_fits = hd;
      e_fits = he;
      joined = cc (e1, e2, e3, e4);
    }

hexes-kept : (x : Text) → All IsHex x → without_dashes x ≡ x
unfolding without_dashes is_hex
hexes-kept [] h = refl
hexes-kept (c ∷ x) h = ground (arith, hexes-kept x h.1)

dash-dropped :
    (n : ℕ) (x y : Text) → Fits (hexes n) x → without_dashes (x ++ b'-' ∷ y) ≡ x ++ without_dashes y
unfolding without_dashes
dash-dropped n x y h =
    keep-append (λ c. not (c == b'-')) x (b'-' ∷ y)
    ∙ ap (λ z. z ++ without_dashes y) (hexes-kept x (Fits-IsHex n x h))

Fits-join : (ps bs : List Atom) (x y : Text) → Fits ps x → Fits bs y → Fits (ps ++ bs) (x ++ y)
Fits-join [] bs [] y hx hy = hy
Fits-join [] bs (c ∷ x) y hx hy = elim hx [ ]
Fits-join (a ∷ ps) bs [] y hx hy = elim hx [ ]
Fits-join (a ∷ ps) bs (c ∷ x) y hx hy = (hx.0, Fits-join ps bs x y hx.1 hy)

module _ (t : Text) (g : Groups t) where
  digits : Text
  digits = g.a ++ (g.b ++ (g.c ++ (g.d ++ g.e)))

  -- The digits of an id alone: its groups with nothing between them.
  without_dashes-digits : without_dashes t ≡ digits
  unfolding digits
  without_dashes-digits =
      ap without_dashes g.joined
      ∙ rw
          (
            dash-dropped 8 g.a (g.b ++ (b'-' ∷ g.c ++ (b'-' ∷ g.d ++ b'-' ∷ g.e))) g.a_fits,
            dash-dropped 4 g.b (g.c ++ (b'-' ∷ g.d ++ b'-' ∷ g.e)) g.b_fits,
            dash-dropped 4 g.c (g.d ++ b'-' ∷ g.e) g.c_fits,
            dash-dropped 4 g.d g.e g.d_fits,
            hexes-kept g.e (Fits-IsHex 12 g.e g.e_fits),
          )
          refl

  digits-plain : Fits plain digits
  unfolding digits
  digits-plain = Fits-join (hexes 8) (hexes 24) g.a (g.b ++ (g.c ++ (g.d ++ g.e))) g.a_fits (
      Fits-join (hexes 4) (hexes 20) g.b (g.c ++ (g.d ++ g.e)) g.b_fits (
        Fits-join (hexes 4) (hexes 16) g.c (g.d ++ g.e) g.c_fits
          (Fits-join (hexes 4) (hexes 12) g.d g.e g.d_fits g.e_fits)))

  uuid_format-digits : uuid_format digits ≡ t
  unfolding uuid_format digits
  uuid_format-digits =
      let a8 : length g.a ≡ 8 = length-Fits (hexes 8) g.a g.a_fits in
      let b4 : length g.b ≡ 4 = length-Fits (hexes 4) g.b g.b_fits in
      let c4 : length g.c ≡ 4 = length-Fits (hexes 4) g.c g.c_fits in
      let d4 : length g.d ≡ 4 = length-Fits (hexes 4) g.d g.d_fits in
      let e12 : length g.e ≡ 12 = length-Fits (hexes 12) g.e g.e_fits in
      let de = g.d ++ g.e in
      let cde = g.c ++ (g.d ++ g.e) in
      let bcde = g.b ++ (g.c ++ (g.d ++ g.e)) in
      let last : take 12 g.e ≡ g.e =
        ap (take 12) (sym (append-nil g.e)) ∙ take-append 12 g.e [] e12 in
      rw
        (
          take-append 8 g.a bcde a8,
          drop-append 8 0 g.a bcde a8,
          take-append 4 g.b cde b4,
          drop-append 8 4 g.a bcde a8,
          drop-append 4 0 g.b cde b4,
          take-append 4 g.c de c4,
          drop-append 8 8 g.a bcde a8,
          drop-append 4 4 g.b cde b4,
          drop-append 4 0 g.c de c4,
          take-append 4 g.d g.e d4,
          drop-append 8 12 g.a bcde a8,
          drop-append 4 8 g.b cde b4,
          drop-append 4 4 g.c de c4,
          drop-append 4 0 g.d g.e d4,
          last,
        )
        (sym g.joined)

-- A UUID of 36 characters that has lost its dashes is an id of 32 hex digits, and the template
-- restores it.
pub uuid_format-without_dashes :
    (id : Text)
    → Fits uuid id
    → Fits plain (without_dashes id) × (uuid_format (without_dashes id) ≡ id)
uuid_format-without_dashes id h =
    let g = Groups-uuid id h in
    let e = without_dashes-digits id g in (rw e (digits-plain id g), rw e (uuid_format-digits id g))
