-- ===== src/Domain.antt =====
-- vmnetx/domain.py: the choice of an emulator for a virtual machine. The documents are what their XPath
-- queries see of them.
pub mod Choice
use Prim.Native.String.{String}
use text.Mathlib.Text.{◌==◌ as str_eq}
use vmnetx.Prelude.{
  Bool, true, false, not, ◌&&◌, ◌||◌, Option, none, some, List, [], ◌∷◌, if◌then◌else◌,
}

pub data DomainXmlError : Type 0 where
  no_results multiple_results not_64bit no_emulator : DomainXmlError

pub data Result (A : Type 0) : Type 0 where
  ok : A → Result A
  err : DomainXmlError → Result A

-- `_xpath_opt`, of the nodes that the query gives.
unfoldable pub xpath_opt : {A : Type 0} → List A → Result (Option A)
xpath_opt [] = ok none
xpath_opt (x ∷ []) = ok (some x)
xpath_opt (x ∷ y ∷ rest) = err multiple_results

abbrev pub required : {A : Type 0} → Result (Option A) → Result A
required (ok none) = err no_results
required (ok (some x)) = ok x
required (err e) = err e

-- `_xpath_one`.
unfoldable pub xpath_one : {A : Type 0} → List A → Result A
unfolding xpath_opt
xpath_one nodes = required (xpath_opt nodes)

-- The capabilities of libvirt: what stands in `/capabilities`.
pub record MachineNode : Type 0 where
  pub text : String
  pub canonical : Option String

pub record DomainNode : Type 0 where
  pub domain_type : String
  pub emulators : List String

pub record ArchNode : Type 0 where
  pub name : String
  pub machines : List MachineNode
  pub domains : List DomainNode
  pub emulators : List String

pub record GuestNode : Type 0 where
  pub os_types : List String
  pub archs : List ArchNode

pub record Capabilities : Type 0 where
  pub host_archs : List String  -- `host/cpu/arch`
  pub guests : List GuestNode

-- What a domain asks for: its type, and the text and attributes of `os/type`.
pub record Wanted : Type 0 where
  pub os_type : String
  pub domain_type : String
  pub arch : String
  pub machine : String

-- `_Emulator`, whose other fields are those of what was wanted.
pub record Emulator : Type 0 where
  pub machine : String
  pub canonical_machine : String
  pub path : String

-- The nested loops: they go on with a candidate, or have returned or raised.
pub data Search : Type 0 where
  going : Option Emulator → Search
  returned : Emulator → Search
  raised : DomainXmlError → Search

abbrev pub save : Option String → Emulator → Search → Search
save none e (going c) = going (some e)
save (some canonical) e (going c) = returned e
save canonical e s = s

abbrev pub or_text : Option String → String → String
or_text none text = text
or_text (some canonical) text = if str_eq canonical "" then text else canonical

-- `emulator_nodes`, and what is done with the only one of them.
abbrev pub emulator_nodes : ArchNode → DomainNode → List String
emulator_nodes a d = elim d.emulators [ [] ↦ a.emulators | e ∷ es ↦ e ∷ es ]

abbrev pub only : MachineNode → List String → Search → Search
only m (path ∷ []) s =
    save m.canonical
      (record { machine = m.text; canonical_machine = or_text m.canonical m.text; path = path }) s
only m _ s = s

abbrev pub is_canonical : String → Option String → Bool
is_canonical machine none = false
is_canonical machine (some canonical) = str_eq canonical machine

abbrev pub suits : String → MachineNode → Bool
suits machine m = str_eq m.text machine || is_canonical machine m.canonical

unfoldable pub visit_domains : Wanted → ArchNode → MachineNode → List DomainNode → Search → Search
visit_domains w a m [] s = s
visit_domains w a m (d ∷ ds) s =
    visit_domains w a m ds
      (if str_eq d.domain_type w.domain_type then only m (emulator_nodes a d) s else s)

unfoldable pub visit_machines : Wanted → ArchNode → List MachineNode → Search → Search
unfolding visit_domains
visit_machines w a [] s = s
visit_machines w a (m ∷ ms) s =
    visit_machines w a ms (if suits w.machine m then visit_domains w a m a.domains s else s)

unfoldable pub visit_archs : Wanted → List ArchNode → Search → Search
unfolding visit_machines
visit_archs w [] s = s
visit_archs w (a ∷ others) s =
    visit_archs w others (if str_eq a.name w.arch then visit_machines w a a.machines s else s)

-- `_xpath_opt(guest, 'os_type')`, and the rest of the outer loop's body.
abbrev pub enter_guest : Wanted → Result (Option String) → List ArchNode → Search → Search
enter_guest w (ok none) archs s = s
enter_guest w (ok (some os_type)) archs s =
    if str_eq os_type w.os_type then visit_archs w archs s else s
enter_guest w (err e) archs (going c) = raised e
enter_guest w (err e) archs s = s

unfoldable pub visit_guests : Wanted → List GuestNode → Search → Search
unfolding visit_archs xpath_opt
visit_guests w [] s = s
visit_guests w (g ∷ gs) s = visit_guests w gs (enter_guest w (xpath_opt g.os_types) g.archs s)

abbrev pub outcome : Search → Result Emulator
outcome (going none) = err no_emulator
outcome (going (some e)) = ok e
outcome (returned e) = ok e
outcome (raised e) = err e

abbrev pub on_host : Result String → Wanted → Result Emulator → Result Emulator
on_host (err e) w rest = err e
on_host (ok host_arch) w rest =
    if str_eq w.arch "x86_64" && not (str_eq host_arch "x86_64") then err not_64bit else rest

-- `_get_emulator`.
unfoldable pub get_emulator : Capabilities → Wanted → Result Emulator
unfolding visit_guests xpath_one
get_emulator caps w =
    on_host (xpath_one caps.host_archs) w (outcome (visit_guests w caps.guests (going none)))
