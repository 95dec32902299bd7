-- ===== src/Identity/Instance.antt =====
-- The id of an instance over restarts.
use mathlib.Core.Bool.{true}
use horstmann_dnp3_gateway.Base.{
  String, ◌≡◌, refl, ap, subst, Option, none, some, Bool-cases, inl, inr, ◌==◌, nat_eq, text_eq,
  pair_eq, append_text, lookup, insert, lookup-insert, ==_self,
}
use horstmann_dnp3_gateway.Identity.{
  Texts, Settings, Faults, WriteFault, not_opened, cut_short, Disk, Outcome, done, exit, Exit,
  write_id, usable, from_content, from_file, id_path, from_state_dir, resolve_instance_id,
  instance_safe, or_empty,
}

module _ (x : Texts) (g : Faults) (uuid other : String) (read : g.read ≡ none)
    (usable_uuid : usable x uuid ≡ true) (stripped : x.strip (append_text uuid "\n") ≡ uuid) where
  -- A later start that looks at the path gives this id and leaves the disk as it is.
  abbrev Holds : String → Outcome String × Disk → Type 0
  Holds path p = from_file x g other path (lookup path p.1) p.1 ≡ p

  Holds-file :
      (path id content : String) (disk : Disk)
      → lookup path disk ≡ some content
      → x.strip content ≡ id
      → usable x id ≡ true
      → Holds path (done id, disk)
  unfolding from_file from_content
  Holds-file path id content disk l s u = rw (l, read, s, u) refl

  write_id-Holds :
      (w : Option WriteFault) (path id : String) (disk disk' : Disk)
      → write_id x w path uuid disk ≡ (done id, disk')
      → Holds path (done id, disk')
  unfolding write_id
  write_id-Holds none path id disk disk' e = subst (Holds path) e (
      Holds-file path uuid (append_text uuid "\n") (insert path (append_text uuid "\n") disk)
        (rw (lookup-insert path path (append_text uuid "\n") disk, ==_self path) refl) stripped
        usable_uuid)
  write_id-Holds (some (not_opened t)) path id disk disk' e = cc
  write_id-Holds (some (cut_short part t)) path id disk disk' e = cc

  from_content-Holds :
      (r : Option String) (w : Option WriteFault) (path id content : String) (disk disk' : Disk)
      → lookup path disk ≡ some content
      → from_content x r w uuid path content disk ≡ (done id, disk')
      → Holds path (done id, disk')
  unfolding from_content
  from_content-Holds (some t) w path id content disk disk' l e = cc
  from_content-Holds none w path id content disk disk' l e =
      elim (Bool-cases (usable x (x.strip content))) [
        | inl u ↦
            subst (Holds path) (rw u at e) (Holds-file path (x.strip content) content disk l refl u)
        | inr u ↦ write_id-Holds w path id disk disk' (rw u at e)
      ]

  from_file-Holds :
      (f : Faults) (path id : String) (found : Option String) (disk disk' : Disk)
      → lookup path disk ≡ found
      → from_file x f uuid path found disk ≡ (done id, disk')
      → Holds path (done id, disk')
  unfolding from_file
  from_file-Holds f path id none disk disk' l e = write_id-Holds f.write path id disk disk' e
  from_file-Holds f path id (some content) disk disk' l e =
      from_content-Holds f.read f.write path id content disk disk' l e

  from_state_dir-Holds :
      (m : Option String) (f : Faults) (s : Settings) (id : String) (disk disk' : Disk)
      → from_state_dir x m f uuid s disk ≡ (done id, disk')
      → Holds (id_path x s) (done id, disk')
  unfolding from_state_dir
  from_state_dir-Holds (some t) f s id disk disk' e = cc
  from_state_dir-Holds none f s id disk disk' e =
      from_file-Holds f (id_path x s) id (lookup (id_path x s) disk) disk disk' refl e

  no_exit {ℓ} :
      {A : Type ℓ} (c : Exit) (id : String) (disk disk' : Disk)
      → ◌≡◌ {A = Outcome String × Disk} (exit c, disk) (done id, disk')
      → A
  no_exit c id disk disk' e = cc

  -- An id that one start has resolved is what every later start with the same settings resolves,
  -- whatever new UUID that start would make, and the disk stays as it is. The later start meets no
  -- error in mkdir and in its read; the first may meet any. A UUID is a usable id, and strip takes
  -- the line's end from it.
  pub resolve_again :
      (f : Faults) (s : Settings) (id : String) (disk disk' : Disk)
      → g.mkdir ≡ none
      → resolve_instance_id x f uuid s disk ≡ (done id, disk')
      → resolve_instance_id x g other s disk' ≡ (done id, disk')
  unfolding resolve_instance_id from_state_dir
  resolve_again f s id disk disk' made e =
      elim (Bool-cases (x.strip (or_empty s.gateway_instance_id) == "")) [
        | inl q ↦
            let h = from_state_dir-Holds f.mkdir f s id disk disk' (rw q at e) in rw (q, made) h
        | inr q ↦
            elim (Bool-cases (x.matches instance_safe (x.strip (or_empty s.gateway_instance_id)))) [
              | inl m ↦
                  rw (q, m) (ap (λ (p : Outcome String × Disk). (p.0, disk')) (rw (q, m) at e))
              | inr m ↦ no_exit _ id disk disk' (rw (q, m) at e)
            ]
      ]
