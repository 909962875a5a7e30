-- ===== src/Rbac/Memory.antt =====
-- A server in memory that meets what the RBAC controller assumes of the Kubernetes API. A script says
-- how it replies to each request that writes.
use kcp_operator.Prelude.{
  String, ◌≡◌, refl, ap, subst, fun_ext, inl, inr, Bool, true, false, ◌&&◌, Option, none, some,
  List, [], ◌∷◌, ◌==◌, eq_iff, arith, if◌then◌else◌,
}
use kcp_operator.Prelude.Maps.{Map, lookup}
use kcp_operator.Api.Kubeconfig.{Kubeconfig, ClusterRoleBinding}
use kcp_operator.Rbac.Server.{
  Server, IsLawful, Answers, View, Carries, listed, put_binding, put_status, put_finalizers,
  or_empty, Takes,
}

-- A request succeeds, has its effect although it reports an error, or is refused.
pub data Reply : Type 0 where
  succeed : Reply
  lose : Reply
  refuse : Reply

pub record Cell : Type 0 where
  pub workspace : String
  pub name : String
  pub binding : ClusterRoleBinding

pub record Memory : Type 0 where
  pub kubeconfig : Kubeconfig
  pub cells : List Cell
  pub script : List Reply

abbrev is_at : String → String → Cell → Bool
is_at ws n c = ws == c.workspace && n == c.name

abbrev pub find : List Cell → String → String → Option ClusterRoleBinding
find [] ws n = none
find (c ∷ cells) ws n = if is_at ws n c then some c.binding else find cells ws n

abbrev remove : String → String → List Cell → List Cell
remove ws n [] = []
remove ws n (c ∷ cells) = let rest = remove ws n cells in if is_at ws n c then rest else c ∷ rest

abbrev text_eq : Option String → String → Bool
text_eq none t = false
text_eq (some s) t = s == t

abbrev carries : Map String → ClusterRoleBinding → Bool
carries [] b = true
carries ((k, v) ∷ m) b = text_eq (lookup k b.labels) v && carries m b

abbrev list_cells : List Cell → String → Map String → List (String × ClusterRoleBinding)
list_cells [] ws labels = []
list_cells (c ∷ cells) ws labels =
    let rest = list_cells cells ws labels in
    if ws == c.workspace && carries labels c.binding then (c.name, c.binding) ∷ rest else rest

abbrev pub memory_view : Memory → View
memory_view m = record { kubeconfig = m.kubeconfig; bindings = find m.cells }

abbrev reply : List Reply → Memory → Memory → Bool × Memory
reply [] before after = (true, after)
reply (succeed ∷ script) before after = (true, record after { script = script })
reply (lose ∷ script) before after = (false, record after { script = script })
reply (refuse ∷ script) before after = (false, record before { script = script })

abbrev written : String → String → (ClusterRoleBinding → ClusterRoleBinding) → Memory → Memory
written ws n f m = record m {
  cells = record { workspace = ws; name = n; binding = f (or_empty (find m.cells ws n)) } ∷ m.cells;
}

-- A server over the memory, which replies to a request that writes by the memory before it and the
-- memory with its effect.
abbrev server_with : (Memory → Memory → Bool × Memory) → Server
server_with respond = record {
  State = Memory;
  view = memory_view;
  connects = λ m kc ws. true;
  list = λ m ws labels. some (list_cells m.cells ws labels);
  delete = λ m ws n. respond m (record m { cells = remove ws n m.cells });
  ensure = λ m ws n f. respond m (written ws n f m);
  patch_status = λ m a.
      respond m
        (record m { kubeconfig = record m.kubeconfig { status = record { authorization = a } } });
  patch_finalizers =
      λ m fs. respond m (record m { kubeconfig = record m.kubeconfig { finalizers = fs } });
  sorted_set = λ xs. xs;
}

abbrev pub memory_server : Server
memory_server = server_with (λ before after. reply before.script before after)

-- A server that no request fails on.
abbrev pub reliable_server : Server
reliable_server = server_with (λ before after. (true, after))

-- A reply is lawful for a memory with the effect of the request.
abbrev Responds : (Memory → Memory → Bool × Memory) → Type 0
Responds respond =
    (before after : Memory) (v : View)
    → memory_view after ≡ v
    → Takes (server_with respond) (respond before after) before v

reply-Responds : Responds (λ before after. reply before.script before after)
reply-Responds before after v e = go before.script
  where
    go :
        (script : List Reply)
        → Takes (server_with (λ m n. reply m.script m n)) (reply script before after) before v
    go [] = inl e
    go (succeed ∷ script) = inl e
    go (lose ∷ script) = inl e
    go (refuse ∷ script) = inr (refl, refl)

find-remove :
    (cells : List Cell) (ws n x m : String)
    → find (remove ws n cells) x m ≡ (if x == ws && m == n then none else find cells x m)
find-remove [] ws n x m = ground arith
find-remove (c ∷ cells) ws n x m = ground (
  arith,
  find-remove cells ws n x m,
  eq_iff ws c.workspace,
  eq_iff n c.name,
  eq_iff x c.workspace,
  eq_iff m c.name,
  eq_iff x ws,
  eq_iff m n,
)

view-remove :
    (m : Memory) (ws n : String)
    → memory_view (record m { cells = remove ws n m.cells }) ≡ put_binding ws n none (memory_view m)
view-remove m ws n =
    ap
      (λ (f : String → String → Option ClusterRoleBinding). record {
        kubeconfig = m.kubeconfig;
        bindings = f;
      })
      (fun_ext (λ x. fun_ext (λ y. find-remove m.cells ws n x y)))

text_eq-some : (o : Option String) (t : String) → o ≡ some t → text_eq o t ≡ true
text_eq-some none t e = cc e
text_eq-some (some s) t e = ground (arith, eq_iff s t, e)

carries-Carries :
    (labels : Map String) (b : ClusterRoleBinding) → Carries labels b → carries labels b ≡ true
unfolding Carries lookup
carries-Carries [] b c = refl
carries-Carries ((k, v) ∷ labels) b c =
    ground (arith, text_eq-some (lookup k b.labels) v c.0, carries-Carries labels b c.1)

listed-cells :
    (cells : List Cell) (ws : String) (labels : Map String) (n : String) (b : ClusterRoleBinding)
    → find cells ws n ≡ some b
    → Carries labels b
    → listed (list_cells cells ws labels) n ≡ some b
unfolding listed
listed-cells [] ws labels n b e c = cc e
listed-cells (x ∷ cells) ws labels n b e c = ground (
  arith,
  e,
  listed-cells cells ws labels n b,
  carries-Carries labels b c,
  eq_iff n x.name,
  eq_iff x.name n,
)

some-injective : {A : Type 0} {x y : A} → some x ≡ some y → x ≡ y
some-injective e = cc e

server_with-IsLawful :
    (respond : Memory → Memory → Bool × Memory) → Responds respond → IsLawful (server_with respond)
server_with-IsLawful respond h = record {
  listed-list = λ m ws labels items e n b o.
      subst (λ (xs : List (String × ClusterRoleBinding)). listed xs n ≡ some b) (some-injective e)
        (listed-cells m.cells ws labels n b o.0 o.1);
  view-delete = λ m ws n.
      h m (record m { cells = remove ws n m.cells }) (put_binding ws n none (memory_view m))
        (view-remove m ws n);
  view-ensure = λ m ws n f.
      h m (written ws n f m)
        (put_binding ws n (some (f (or_empty (find m.cells ws n)))) (memory_view m)) refl;
  view-patch_status = λ m a.
      h m (record m { kubeconfig = record m.kubeconfig { status = record { authorization = a } } })
        (put_status a (memory_view m)) refl;
  view-patch_finalizers = λ m fs.
      h m (record m { kubeconfig = record m.kubeconfig { finalizers = fs } })
        (put_finalizers fs (memory_view m)) refl;
  contains-sorted_set = λ xs a. refl;
}

pub memory_server-IsLawful : IsLawful memory_server
memory_server-IsLawful =
    server_with-IsLawful (λ before after. reply before.script before after) reply-Responds

pub reliable_server-IsLawful : IsLawful reliable_server
reliable_server-IsLawful =
    server_with-IsLawful (λ before after. (true, after)) (λ before after v e. inl e)

pub reliable_server-Answers : Answers reliable_server
reliable_server-Answers = record {
  connects = λ m kc ws. refl;
  lists = λ m ws labels. (list_cells m.cells ws labels, refl);
  deletes = λ m ws n. refl;
  ensures = λ m ws n f. refl;
  patches_status = λ m a. refl;
  patches_finalizers = λ m fs. refl;
}
