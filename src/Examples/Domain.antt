-- ===== src/Examples/Domain.antt =====
-- vmnetx/domain.py: a host with two machine types, of which one is the canonical name's alias.
use vmnetx.Prelude.{◌≡◌, refl, none, some, [], ◌∷◌}
use vmnetx.Domain
use vmnetx.Domain.{
  MachineNode, DomainNode, ArchNode, GuestNode, Capabilities, Wanted, xpath_one, outcome, on_host,
  get_emulator,
}
use vmnetx.Domain.Choice.{choose, in_guests, get_emulator-choose}

abbrev arch : ArchNode
arch = record {
  name = "x86_64";
  machines =
      record { text = "pc-0.12"; canonical = none }
      ∷ record { text = "pc"; canonical = some "pc-0.12" }
      ∷ [];
  domains =
      record { domain_type = "qemu"; emulators = [] }
      ∷ record { domain_type = "kvm"; emulators = "/usr/bin/kvm" ∷ [] }
      ∷ [];
  emulators = "/usr/bin/qemu" ∷ [];
}

abbrev host : Capabilities
host = record {
  host_archs = "x86_64" ∷ [];
  guests = record { os_types = "hvm" ∷ []; archs = arch ∷ [] } ∷ [];
}

abbrev wanted : Wanted
wanted = record { os_type = "hvm"; domain_type = "kvm"; arch = "x86_64"; machine = "pc-0.12" }

get_emulator_kvm :
    get_emulator host wanted
    ≡ Domain.ok (record { machine = "pc"; canonical_machine = "pc-0.12"; path = "/usr/bin/kvm" })
unfolding get_emulator
get_emulator_kvm = refl

get_emulator-choose_example :
    get_emulator host wanted
    ≡ on_host
        (xpath_one host.host_archs)
        wanted
        (outcome (choose none (in_guests wanted host.guests)))
get_emulator-choose_example = get_emulator-choose host wanted
