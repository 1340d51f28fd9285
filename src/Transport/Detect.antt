-- ===== src/Transport/Detect.antt =====
-- Finding the serial port of the UPS (src/transport/detect.rs). A directory of sysfs is the list
-- of its entries that can be read, in the order in which they are listed.
use web3_pi_ups_service.Prelude.{
  ◌≡◌, refl, sym, ap, ◌∙◌, Bool, true, false, not, ◌&&◌, if◌then◌else◌, Option, none, some, List,
  [], ◌∷◌, ◌++◌, Text, ascii, text_eq, Result, ok, err, arith,
}
use web3_pi_ups_service.Prelude.Strings.{starts_with, contains_text, trim}

-- An entry of `/sys/class/tty`: its name and what its `device/../product` holds, `none` if that
-- cannot be read as text.
pub record Entry : Type 0 where
  pub name : Text
  pub product : Option Text

pub record Candidates : Type 0 where
  pub web3_pi_ups : Option Text
  pub raspberry_pi_pico : Option Text
  pub first_ttyacm : Option Text

abbrev pub device_path : Text → Text
device_path name = ascii "/dev/" ++ name

-- `if x.is_none() { x = Some(..) }`
abbrev pub keep_first : Option Text → Text → Option Text
keep_first none path = some path
keep_first (some p) path = some p

abbrev pub is_acm : Entry → Bool
is_acm e = starts_with (ascii "ttyACM") e.name

-- What the product tells of a device.
unfoldable pub match_product : Option Text → Text → Candidates → Candidates
match_product none path c = c
match_product (some product) path c =
    if text_eq (trim product) (ascii "Web3_Pi_UPS")
    then record c { web3_pi_ups = some path }
    else if contains_text (ascii "Pico") (trim product)
    then record c { raspberry_pi_pico = keep_first c.raspberry_pi_pico path }
    else c

-- One round of the loop.
unfoldable pub visit : Entry → Candidates → Candidates
unfolding match_product
visit e c =
    if is_acm e
    then match_product e.product (device_path e.name)
        (record c { first_ttyacm = keep_first c.first_ttyacm (device_path e.name) })
    else c

unfoldable pub visit_all : List Entry → Candidates → Candidates
unfolding visit
visit_all [] c = c
visit_all (e ∷ es) c = visit_all es (visit e c)

abbrev pub or_else : Option Text → Option Text → Option Text
or_else none q = q
or_else (some p) q = some p

abbrev pub no_candidates : Candidates
no_candidates = record { web3_pi_ups = none; raspberry_pi_pico = none; first_ttyacm = none }

-- `none` for a directory that cannot be read.
unfoldable pub detect_ups_port : Option (List Entry) → Option Text
unfolding visit_all
detect_ups_port none = none
detect_ups_port (some entries) =
    let c = visit_all entries no_candidates in
    or_else c.web3_pi_ups (or_else c.raspberry_pi_pico c.first_ttyacm)

pub data PortError : Type 0 where
  no_device : PortError

abbrev pub found : Option Text → Result Text PortError
found none = err no_device
found (some port) = ok port

unfoldable pub resolve_port : Option (List Entry) → Text → Result Text PortError
unfolding detect_ups_port
resolve_port dir configured =
    if text_eq configured (ascii "auto") then found (detect_ups_port dir) else ok configured

-- The devices of the three kinds.
abbrev pub product_is : (Text → Bool) → Entry → Bool
product_is test e = elim e.product [ none ↦ false | some p ↦ is_acm e && test (trim p) ]

abbrev pub is_ups : Entry → Bool
is_ups = product_is (λ p. text_eq p (ascii "Web3_Pi_UPS"))

abbrev pub is_pico : Entry → Bool
is_pico = product_is (λ p. not (text_eq p (ascii "Web3_Pi_UPS")) && contains_text (ascii "Pico") p)

-- The first and the last entry that pass a test, as paths.
abbrev pub first_such : (Entry → Bool) → List Entry → Option Text
first_such test [] = none
first_such test (e ∷ es) =
    let rest = first_such test es in if test e then some (device_path e.name) else rest

abbrev pub last_such : (Entry → Bool) → List Entry → Option Text
last_such test [] = none
last_such test (e ∷ es) =
    or_else (last_such test es) (if test e then some (device_path e.name) else none)

or_else_assoc : (p q r : Option Text) → or_else p (or_else q r) ≡ or_else (or_else p q) r
or_else_assoc none q r = refl
or_else_assoc (some p) q r = refl

-- What an entry adds: a UPS replaces the one before it, the others only fill a gap.
visit-candidates :
    (e : Entry) (c : Candidates)
    → let path = some (device_path e.name) in
      visit e c ≡ record {
        web3_pi_ups = or_else (if is_ups e then path else none) c.web3_pi_ups;
        raspberry_pi_pico = or_else c.raspberry_pi_pico (if is_pico e then path else none);
        first_ttyacm = or_else c.first_ttyacm (if is_acm e then path else none);
      }
unfolding visit match_product
visit-candidates e c = ground arith

if-or_else :
    (b : Bool) (p : Text) (q : Option Text)
    → or_else (if b then some p else none) q ≡ (if b then some p else q)
if-or_else true p q = refl
if-or_else false p q = refl

visit_all-candidates :
    (es : List Entry) (c : Candidates)
    → visit_all es c ≡ record {
      web3_pi_ups = or_else (last_such is_ups es) c.web3_pi_ups;
      raspberry_pi_pico = or_else c.raspberry_pi_pico (first_such is_pico es);
      first_ttyacm = or_else c.first_ttyacm (first_such is_acm es);
    }
unfolding visit_all
visit_all-candidates [] c = ground arith
visit_all-candidates (e ∷ es) c =
    let path = device_path e.name in
    let ups : Option Text = if is_ups e then some path else none in
    let pico : Option Text = if is_pico e then some path else none in
    let acm : Option Text = if is_acm e then some path else none in
    visit_all-candidates es (visit e c)
    ∙ rw (visit-candidates e c) (λ i. record {
      web3_pi_ups = or_else_assoc (last_such is_ups es) ups c.web3_pi_ups i;
      raspberry_pi_pico =
          (sym (or_else_assoc c.raspberry_pi_pico pico (first_such is_pico es))
              ∙ ap (or_else c.raspberry_pi_pico)
                  (if-or_else (is_pico e) path (first_such is_pico es)))
            i;
      first_ttyacm =
          (sym (or_else_assoc c.first_ttyacm acm (first_such is_acm es))
              ∙ ap (or_else c.first_ttyacm) (if-or_else (is_acm e) path (first_such is_acm es)))
            i;
    })

-- In a directory that can be read, the port is that of the last `ttyACM` device whose product is
-- `Web3_Pi_UPS`; without one, of the first whose product contains `Pico`; without that, of the
-- first `ttyACM` device.
pub detect_ups_port-priority :
    (entries : List Entry)
    → detect_ups_port (some entries)
      ≡ or_else
          (last_such is_ups entries)
          (or_else (first_such is_pico entries) (first_such is_acm entries))
unfolding detect_ups_port
detect_ups_port-priority entries =
    rw (visit_all-candidates entries no_candidates)
      (sym (or_else_assoc (last_such is_ups entries) none _))
