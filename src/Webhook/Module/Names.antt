-- ===== src/Webhook/Module/Names.antt =====
-- The release names that the webhook generates.
use Prim.Native.Char.{code}
use Prim.Native.String.{count, [] as end_of_text, ◌∷◌ as ◌◂◌}
use forkspacer.Base.{
  [], ◌∷◌, ℕ, zero, suc, ◌+◌, ◌≤◌, String, ◌≡◌, ◌≢◌, refl, ap, ◌∙◌, Option, none, some, nat_eq,
  arith, if◌then◌else◌, Bool-cases, inl, inr,
}
use text.Mathlib.TextLemmas.{length-cons, length-append, length-nil}
use forkspacer.Go.{concat}
use forkspacer.Api.Module.{Module, ModuleSpecHelm, ModuleSpecHelmExistingRelease, get_release_name}
use forkspacer.Webhook.Module.{
  clean_uuid, generated_name, default_module, or_generated, default_helm,
}

-- how many characters of a text are no hyphen
unfoldable pub plain_count : String → ℕ
plain_count end_of_text = 0
plain_count (ch ◂ s) = let rest = plain_count s in if nat_eq (code ch) b'-' then rest else suc rest

-- The loop gives `n` characters if the text has as many besides its hyphens.
count-clean_uuid : (n : ℕ) (s : String) → n ≤ plain_count s → count (clean_uuid n s) ≡ n
unfolding clean_uuid plain_count
count-clean_uuid zero s h = length-nil
count-clean_uuid (suc n) end_of_text h = absurd (omega arith)
count-clean_uuid (suc n) (ch ◂ s) h = elim (Bool-cases (nat_eq (code ch) b'-')) [
  | inl e ↦ rw (e, clean_uuid) (count-clean_uuid (suc n) s (ground arith))
  | inr e ↦
      rw (e, clean_uuid)
        (length-cons ch (clean_uuid n s) ∙ ap suc (count-clean_uuid n s (ground arith)))
]

-- The release name that is generated for a namespace is 12 characters longer than the namespace,
-- when the UUID has eleven characters besides its hyphens.
pub count-generated_name :
    (namespace uuid : String)
    → 11 ≤ plain_count uuid
    → count (generated_name namespace uuid) ≡ count namespace + 12
unfolding generated_name
count-generated_name namespace uuid h = omega (
  arith,
  length-append namespace (concat ("-" ∷ clean_uuid 11 uuid ∷ [])),
  length-append "-" (concat (clean_uuid 11 uuid ∷ [])),
  length-append (clean_uuid 11 uuid) "",
  count-clean_uuid 11 uuid h,
)

or_generated_twice :
    (namespace uuid uuid' : String) (o : Option String)
    → or_generated namespace uuid' (or_generated namespace uuid o) ≡ or_generated namespace uuid o
or_generated_twice namespace uuid uuid' none = refl
or_generated_twice namespace uuid uuid' (some name) = refl

or_generated_some :
    (namespace uuid : String) (o : Option String) → or_generated namespace uuid o ≢ none
or_generated_some namespace uuid none e = cc
or_generated_some namespace uuid (some name) e = cc

default_helm_twice :
    (namespace uuid uuid' : String) (o : Option ModuleSpecHelm)
    → default_helm namespace uuid' (default_helm namespace uuid o) ≡ default_helm namespace uuid o
default_helm_twice namespace uuid uuid' none = refl
default_helm_twice namespace uuid uuid' (some helm) =
    ap (λ (o : Option String). some (record helm { release_name = o }))
      (or_generated_twice namespace uuid uuid' helm.release_name)

has_name :
    (adopted : Option ModuleSpecHelmExistingRelease) (name : Option String) (helm : ModuleSpecHelm)
    → name ≢ none
    → get_release_name (record helm { existing_release = adopted; release_name = name }) ≢ none
unfolding get_release_name
has_name none name helm n e = n e
has_name (some _) name helm n e = cc

-- After defaulting a Helm module has a release name, and defaulting it again, with another UUID,
-- changes nothing: `GetReleaseName` does not panic, and the release keeps its name.
pub default_module-default_module :
    (uuid uuid' : String) (m : Module) (helm : ModuleSpecHelm)
    → m.spec.helm ≡ some helm
    → (default_module uuid' (default_module uuid m) ≡ default_module uuid m)
      × (helm' : ModuleSpecHelm) × ((default_module uuid m).spec.helm ≡ some helm')
      × (get_release_name helm' ≢ none)
unfolding default_module get_release_name
default_module-default_module uuid uuid' m helm h =
    let named = record helm {
      release_name = or_generated m.metadata.namespace uuid helm.release_name;
    } in
    (
      ap (λ (o : Option ModuleSpecHelm). record m { spec = record m.spec { helm = o } })
          (default_helm_twice m.metadata.namespace uuid uuid' m.spec.helm),
      named,
      ap (default_helm m.metadata.namespace uuid) h,
      has_name helm.existing_release (or_generated m.metadata.namespace uuid helm.release_name) helm
          (or_generated_some m.metadata.namespace uuid helm.release_name),
    )
