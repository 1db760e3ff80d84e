-- ===== src/Services/Roles/Laws.antt =====
-- What the operations on the permissions of a role do.
use cppadmin.Base.{
  ◌≡◌, refl, ap, ◌∙◌, Bytes, Bool, true, false, List, [], ◌∷◌, arith, contains, bytes_beq, bytes_eq,
  ◌&&◌, ◌||◌, if◌then◌else◌,
}
use cppadmin.Error.Effect.{Result, ok, for_each}
use cppadmin.Error.Effect.Laws.{bind-ok, writes-ok}
use cppadmin.Database.{Database}
use cppadmin.Database.Schema.{LinkTable, roles_permissions, link_beq, delete_link}
use cppadmin.Database.Laws.{IsRelational}
use cppadmin.Services.Mapper.{exec, unlink_each}
use cppadmin.Services.Mapper.Laws.{link_all-linked}
use cppadmin.Services.Roles.{assign_permissions, unassign_permissions}

module _ (db : Database) (law : IsRelational db) where
  -- Assigning permissions that succeeds adds exactly these to the role and to nothing else.
  pub assign_permissions_sound :
      (role : Bytes) (ids : List Bytes) (s : db.State)
      → (assign_permissions db role ids s).0 ≡ ok tt
      → (l : LinkTable) (x y : Bytes)
      → law.linked (assign_permissions db role ids s).1 l x y ≡ (
          (link_beq roles_permissions l && (bytes_beq role x && contains ids y))
          || law.linked s l x y)
  unfolding assign_permissions
  assign_permissions_sound role ids s h l x y =
      link_all-linked db law roles_permissions role ids s h l x y

  without :
      (l a b c o : Bool)
      → (if l && (a && c) then false else (if l && (a && b) then false else o))
        ≡ (if l && (a && (b || c)) then false else o)
  without true true true true o = refl
  without l a b c o = ground arith

  unlink_each-linked :
      (m : LinkTable) (a : Bytes) (bs : List Bytes) (s : db.State)
      → (unlink_each db m a bs s).0 ≡ ok tt
      → (l : LinkTable) (x y : Bytes)
      → law.linked (unlink_each db m a bs s).1 l x y
        ≡ (if link_beq m l && (bytes_beq a x && contains bs y) then false else law.linked s l x y)
  unfolding for_each contains
  unlink_each-linked m a [] s h l x y = ground arith
  unlink_each-linked m a (b ∷ bs) s h l x y =
      let (u, s', e, h', f) =
        bind-ok (λ _. unlink_each db m a bs) tt (exec db (delete_link m a b)) s h in
      ap (λ (p : Result (Unit {0}) × db.State). law.linked p.1 l x y) f
      ∙ (unlink_each-linked m a bs s' h' l x y
          ∙ (ap
                (λ (o : Bool).
                  if link_beq m l && (bytes_beq a x && contains bs y) then false else o)
                (law.linked_exec (delete_link m a b) s s'
                  (writes-ok (db.exec (delete_link m a b)) s s' u e) l x y)
              ∙ without (link_beq m l) (bytes_beq a x) (bytes_beq b y) (contains bs y)
                  (law.linked s l x y)))

  -- Taking permissions away that succeeds removes exactly these from the role and from nothing
  -- else.
  pub unassign_permissions_sound :
      (role : Bytes) (ids : List Bytes) (s : db.State)
      → (unassign_permissions db role ids s).0 ≡ ok tt
      → (l : LinkTable) (x y : Bytes)
      → law.linked (unassign_permissions db role ids s).1 l x y ≡ (
          if link_beq roles_permissions l && (bytes_beq role x && contains ids y)
          then false
          else law.linked s l x y)
  unfolding unassign_permissions
  unassign_permissions_sound role ids s h l x y =
      unlink_each-linked roles_permissions role ids s h l x y
