-- ===== src/Vendor/Adding/Planned.antt =====
-- `plan_add` tells what `add` does, and writes nothing after the fetch of the source.
use akua.Base.{◌≡◌, refl, sym, ap₂, ◌∙◌, Bool, true, false, Option, some, ok, Bool-cases, inl, inr}
use akua.Base.Maps.{get}
use akua.Base.Orders.{nat_ord, list_ord}
use akua.Base.Paths.{FilePath, join}
use akua.Base.Runs.{Run, returns, try_map, try_map-ok, >>=-eq-returns}
use akua.Base.Texts.{Text}
use akua.Auth.HostAuth.{HostAuthMap}
use akua.Manifest.{AkuaManifest, Dependency}
use akua.Manifest.Load
use akua.Vendor.{VendorAddOutput, manifest_error}
use akua.Vendor.Adding.{
  Plan, planned, plan_of, place, lock_vendored, replace_tree, add_impl, add, plan_add, add_output,
  dependency_of,
}
use akua.Vendor.Adding.Total.{dependency_of-get}
use akua.Vendor.Copying.{Store}
use akua.Vendor.Inventory.{vendor_root}
use akua.Vendor.Sources.{Tools, SourceResolution, resolve_source}

same_output :
    {E D : Type 0} {a b : VendorAddOutput} {d e : D}
    → ◌≡◌ {A = Run E (VendorAddOutput × D)} (returns (a, d)) (returns (b, e))
    → a ≡ b
same_output h = cc

same_disk :
    {E D : Type 0} (a : Plan) (d : D) (made : Plan × D)
    → ◌≡◌ {A = Run E (Plan × D)} (returns (a, d)) (returns made)
    → d ≡ made.1
same_disk a d made h = cc

same_told :
    {E A D : Type 0} {a : A} {d e : D} (told : A × D)
    → ◌≡◌ {A = Run E (A × D)} (returns (a, d)) (returns told)
    → ◌≡◌ {A = Run E (A × D)} (returns (a, e)) (returns (told.0, e))
same_told told h = cc

module _ {IoError TomlError Disk : Type 0} (tools : Tools IoError TomlError Disk)
    (store : Store IoError Disk) where
  -- What `add` tells of a plan, `plan_add` tells, on the disk that it is given.
  place-planned :
      (plan : Plan) (disk : Disk) {told : (Bool × Bool) × Disk}
      → place tools store true plan disk ≡ returns told
      → place tools store false plan disk ≡ returns (told.0, disk)
  unfolding place
  place-planned plan disk {told} h = elim (Bool-cases plan.found.matches) [
    | inl same ↦ rw same (same_told told (rw same at h))
    | inr differs ↦
        let (placed, _, k) =
          >>=-eq-returns
            (replace_tree tools store plan.found.existed plan.source.root plan.target disk) _
            (rw differs at h) in
        rw differs (same_told told k)
  ]

  -- The disk of a plan is the one that the resolution of its source left.
  planned-resolved :
      (workspace : FilePath) (name : Text) (auth : Option HostAuthMap) (disk : Disk)
      {made : Plan × Disk}
      → planned tools store workspace name auth disk ≡ returns made
      → (m : AkuaManifest) × (dep : Dependency) × (found : SourceResolution × Disk) × (Load.load
            tools.manifest_from_str
            (tools.view disk).read
            workspace
          ≡ ok m)
        × (get name m.dependencies ≡ some dep)
        × (resolve_source tools disk workspace name dep auth ≡ returns found)
        × (made.1 ≡ found.1)
  unfolding planned
  planned-resolved workspace name auth disk {made} h =
      let loaded = Load.load tools.manifest_from_str (tools.view disk).read workspace in
      let (m, a, h1) = >>=-eq-returns (try_map manifest_error loaded) _ h in
      let (dep, b, h2) = >>=-eq-returns (dependency_of tools store name m.dependencies) _ h1 in
      let (found, c, h3) =
        >>=-eq-returns (resolve_source tools disk workspace name dep auth) _ h2 in
      let target = join (vendor_root workspace) name in
      let (plan, e, h4) = >>=-eq-returns (plan_of tools store dep found.0 target found.1) _ h3 in
      (
        m,
        dep,
        found,
        try_map-ok manifest_error loaded a,
        dependency_of-get tools store name m.dependencies b,
        c,
        sym (same_disk plan found.1 made h4),
      )

  plan_add-planned :
      (workspace : FilePath) (name : Text) (auth : Option HostAuthMap) (disk : Disk)
      {made : Plan × Disk} {told : (Bool × Bool) × Disk}
      → planned tools store workspace name auth disk ≡ returns made
      → place tools store true made.0 made.1 ≡ returns told
      → plan_add tools store workspace name auth disk
        ≡ returns (add_output name made.0 told.0, made.1)
  unfolding plan_add add_impl
  plan_add-planned workspace name auth disk {made} {told} a b =
      rw (a, place-planned made.0 made.1 b) refl

  -- Where `add` returns, it has loaded the manifest, found the dependency and resolved its source, and `plan_add` on
  -- the same disk returns the same output and leaves the disk as the resolution of the source left it: it writes
  -- neither the tree nor the lock, and nothing but the fetcher's cache.
  pub plan_add-add :
      (workspace : FilePath) (name : Text) (auth : Option HostAuthMap) (disk : Disk)
      {out : VendorAddOutput} {after : Disk}
      → add tools store workspace name auth disk ≡ returns (out, after)
      → (m : AkuaManifest) × (dep : Dependency) × (found : SourceResolution × Disk) × (Load.load
            tools.manifest_from_str
            (tools.view disk).read
            workspace
          ≡ ok m)
        × (get name m.dependencies ≡ some dep)
        × (resolve_source tools disk workspace name dep auth ≡ returns found)
        × (plan_add tools store workspace name auth disk ≡ returns (out, found.1))
  unfolding add add_impl
  plan_add-add workspace name auth disk {out} {after} h =
      let (made, a, h1) = >>=-eq-returns (planned tools store workspace name auth disk) _ h in
      let (told, b, h2) = >>=-eq-returns (place tools store true made.0 made.1) _ h1 in
      let (written, c, h3) =
        >>=-eq-returns (lock_vendored tools store workspace name made.0 told.1) _ h2 in
      let (m, dep, found, d, e, f, same) = planned-resolved workspace name auth disk a in
      (
        m,
        dep,
        found,
        d,
        e,
        f,
        plan_add-planned workspace name auth disk a b
            ∙ ap₂ (λ o x. returns (o, x)) (same_output h3) same,
      )
