-- ===== src/Docker/Reads.antt =====
-- internal/docker: listing, inspecting and telling the own container make only calls that look.
use openwatch.Base.{Bool, List, [], ◌∷◌}
use openwatch.Base.Text.{Text}
use openwatch.Docker.{Container}
use openwatch.Docker.Image.{inspect_image, local_image_identifiers}
use openwatch.Docker.Containers.{
  inspect_container, inspect_base, inspect_all, list_containers, is_self,
}
use openwatch.World.{Env, World}
use openwatch.World.Keeps.{
  Keeps, Keeps-pure, Keeps-fault, Keeps-bind, Keeps-if_ok, Keeps-if_some, keeps_rules,
}
use openwatch.World.Reads.{Looks}

module _ {E : Env → Type 0} {S : Type 0} {I : World → Type 0} (q : Looks I) where
  pub Keeps-inspect_container : (id : Text) → Keeps E S I (inspect_container id)
  unfolding inspect_container
  Keeps-inspect_container id = search (keeps_rules, q.inspect) depth 12

  pub Keeps-inspect_image : (ref : Text) → Keeps E S I (inspect_image ref)
  unfolding inspect_image
  Keeps-inspect_image ref = search (keeps_rules, q.image) depth 12

  pub Keeps-inspect_base : (id : Text) → Keeps E S I (inspect_base id)
  unfolding inspect_base
  Keeps-inspect_base id = search (keeps_rules, Keeps-inspect_container) depth 12

  Keeps-inspect_all : (ids : List Text) (out : List Container) → Keeps E S I (inspect_all ids out)
  unfolding inspect_all
  Keeps-inspect_all [] out = Keeps-pure out
  Keeps-inspect_all (id ∷ ids) out = Keeps-bind _ _ (Keeps-inspect_base id) (λ answer.
      Keeps-if_ok answer _ _ (λ e. Keeps-inspect_all ids out)
        (λ inspect.
          Keeps-if_some inspect.config _ _ Keeps-fault (λ config. Keeps-inspect_all ids _)))

  pub Keeps-list_containers : (b : Bool) → Keeps E S I (list_containers b)
  unfolding list_containers
  Keeps-list_containers b = search (keeps_rules, q.list, Keeps-inspect_all) depth 12

  pub Keeps-local_image_identifiers : (ref : Text) → Keeps E S I (local_image_identifiers ref)
  unfolding local_image_identifiers
  Keeps-local_image_identifiers ref = search (keeps_rules, Keeps-inspect_image) depth 12

  pub Keeps-is_self : (c : Container) → Keeps E S I (is_self c)
  unfolding is_self
  Keeps-is_self c = search (keeps_rules, q.hostname) depth 12
