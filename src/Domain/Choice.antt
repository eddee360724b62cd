-- ===== src/Domain/Choice.antt =====
-- The emulator that vmnetx/domain.py chooses, among all that would do.
use Prim.Native.String.{String}
use text.Mathlib.Text.{◌==◌ as str_eq}
use vmnetx.Prelude.{
  ◌≡◌, refl, sym, ap, ◌∙◌, Bool, true, false, Option, none, some, List, [], ◌∷◌, ◌++◌,
  if◌then◌else◌, arith,
}
use vmnetx.Domain.{
  DomainXmlError, Result, ok, err, xpath_opt, xpath_one, MachineNode, DomainNode, ArchNode,
  GuestNode, Capabilities, Wanted, Emulator, Search, going, returned, raised, or_text,
  emulator_nodes, only, suits, visit_domains, visit_machines, visit_archs, enter_guest,
  visit_guests, outcome, on_host, get_emulator,
}

-- An emulator that would do, whose machine has a canonical name or not; or a query that fails.
pub data Find : Type 0 where
  canonical plain : Emulator → Find
  broken : DomainXmlError → Find

abbrev pub found : MachineNode → String → Find
found m path =
    let e : Emulator = record {
      machine = m.text;
      canonical_machine = or_text m.canonical m.text;
      path = path;
    } in
    elim m.canonical [ none ↦ plain e | some _ ↦ canonical e ]

abbrev pub of_paths : MachineNode → List String → List Find
of_paths m (path ∷ []) = found m path ∷ []
of_paths m _ = []

-- All that would do, in the order of the document.
abbrev pub in_domains : Wanted → ArchNode → MachineNode → List DomainNode → List Find
in_domains w a m [] = []
in_domains w a m (d ∷ ds) =
    (if str_eq d.domain_type w.domain_type then of_paths m (emulator_nodes a d) else [])
    ++ in_domains w a m ds

abbrev pub in_machines : Wanted → ArchNode → List MachineNode → List Find
in_machines w a [] = []
in_machines w a (m ∷ ms) =
    (if suits w.machine m then in_domains w a m a.domains else []) ++ in_machines w a ms

abbrev pub in_archs : Wanted → List ArchNode → List Find
in_archs w [] = []
in_archs w (a ∷ rest) =
    (if str_eq a.name w.arch then in_machines w a a.machines else []) ++ in_archs w rest

abbrev pub in_guest : Wanted → Result (Option String) → List ArchNode → List Find
in_guest w (ok none) archs = []
in_guest w (ok (some os_type)) archs = if str_eq os_type w.os_type then in_archs w archs else []
in_guest w (err e) archs = broken e ∷ []

abbrev pub in_guests : Wanted → List GuestNode → List Find
in_guests w [] = []
in_guests w (g ∷ gs) = in_guest w (xpath_opt g.os_types) g.archs ++ in_guests w gs

-- The first with a canonical name, unless a query fails before it; else the last that would do.
abbrev pub choose : Option Emulator → List Find → Search
choose last [] = going last
choose last (canonical e ∷ fs) = returned e
choose last (plain e ∷ fs) = choose (some e) fs
choose last (broken x ∷ fs) = raised x

-- What remains of the loops is skipped once they have returned or raised.
abbrev resume : Search → List Find → Search
resume (going c) fs = choose c fs
resume s fs = s

resume-append : (s : Search) (xs ys : List Find) → resume s (xs ++ ys) ≡ resume (resume s xs) ys
resume-append (returned e) xs ys = refl
resume-append (raised x) xs ys = refl
resume-append (going c) [] ys = refl
resume-append (going c) (canonical e ∷ xs) ys = refl
resume-append (going c) (plain e ∷ xs) ys = resume-append (going (some e)) xs ys
resume-append (going c) (broken x ∷ xs) ys = refl

resume-nil : (s : Search) → resume s [] ≡ s
resume-nil (going c) = refl
resume-nil (returned e) = refl
resume-nil (raised x) = refl

save-resume :
    (m : MachineNode) (path : String) (s : Search)
    → only m (path ∷ []) s ≡ resume s (found m path ∷ [])
save-resume m path (going c) = ground arith
save-resume m path (returned e) = ground arith
save-resume m path (raised x) = ground arith

only-resume :
    (m : MachineNode) (paths : List String) (s : Search)
    → only m paths s ≡ resume s (of_paths m paths)
only-resume m [] s = sym (resume-nil s)
only-resume m (path ∷ []) s = save-resume m path s
only-resume m (path ∷ other ∷ paths) s = sym (resume-nil s)

-- A visit that is made only if a test holds.
if_resume :
    (b : Bool) (s t : Search) (fs : List Find)
    → t ≡ resume s fs
    → (if b then t else s) ≡ resume s (if b then fs else [])
if_resume true s t fs e = e
if_resume false s t fs e = sym (resume-nil s)

visit_domains-resume :
    (w : Wanted) (a : ArchNode) (m : MachineNode) (ds : List DomainNode) (s : Search)
    → visit_domains w a m ds s ≡ resume s (in_domains w a m ds)
unfolding visit_domains
visit_domains-resume w a m [] s = sym (resume-nil s)
visit_domains-resume w a m (d ∷ ds) s =
    visit_domains-resume w a m ds _
    ∙ ap (λ t. resume t (in_domains w a m ds))
        (if_resume (str_eq d.domain_type w.domain_type) s _ _
          (only-resume m (emulator_nodes a d) s))
    ∙ sym (resume-append s _ (in_domains w a m ds))

visit_machines-resume :
    (w : Wanted) (a : ArchNode) (ms : List MachineNode) (s : Search)
    → visit_machines w a ms s ≡ resume s (in_machines w a ms)
unfolding visit_machines
visit_machines-resume w a [] s = sym (resume-nil s)
visit_machines-resume w a (m ∷ ms) s =
    visit_machines-resume w a ms _
    ∙ ap (λ t. resume t (in_machines w a ms))
        (if_resume (suits w.machine m) s _ _ (visit_domains-resume w a m a.domains s))
    ∙ sym (resume-append s _ (in_machines w a ms))

visit_archs-resume :
    (w : Wanted) (archs : List ArchNode) (s : Search)
    → visit_archs w archs s ≡ resume s (in_archs w archs)
unfolding visit_archs
visit_archs-resume w [] s = sym (resume-nil s)
visit_archs-resume w (a ∷ rest) s =
    visit_archs-resume w rest _
    ∙ ap (λ t. resume t (in_archs w rest))
        (if_resume (str_eq a.name w.arch) s _ _ (visit_machines-resume w a a.machines s))
    ∙ sym (resume-append s _ (in_archs w rest))

enter_guest-resume :
    (w : Wanted) (o : Result (Option String)) (archs : List ArchNode) (s : Search)
    → enter_guest w o archs s ≡ resume s (in_guest w o archs)
enter_guest-resume w (ok none) archs s = sym (resume-nil s)
enter_guest-resume w (ok (some os_type)) archs s =
    if_resume (str_eq os_type w.os_type) s _ _ (visit_archs-resume w archs s)
enter_guest-resume w (err e) archs (going c) = refl
enter_guest-resume w (err e) archs (returned x) = refl
enter_guest-resume w (err e) archs (raised x) = refl

visit_guests-resume :
    (w : Wanted) (gs : List GuestNode) (s : Search)
    → visit_guests w gs s ≡ resume s (in_guests w gs)
unfolding visit_guests
visit_guests-resume w [] s = sym (resume-nil s)
visit_guests-resume w (g ∷ gs) s =
    visit_guests-resume w gs _
    ∙ ap (λ t. resume t (in_guests w gs)) (enter_guest-resume w (xpath_opt g.os_types) g.archs s)
    ∙ sym (resume-append s _ (in_guests w gs))

-- The nested loops choose, of all the emulators that would do, in the order of the document, the first whose
-- machine has a canonical name, and else the last; a guest with several OS types is an error, unless a
-- choice was made before it; and there is an error where none would do, or for a 64-bit machine on
-- a host that is not.
pub get_emulator-choose :
    (caps : Capabilities) (w : Wanted)
    → get_emulator caps w
      ≡ on_host (xpath_one caps.host_archs) w (outcome (choose none (in_guests w caps.guests)))
unfolding get_emulator
get_emulator-choose caps w =
    ap (λ s. on_host (xpath_one caps.host_archs) w (outcome s))
      (visit_guests-resume w caps.guests (going none))
