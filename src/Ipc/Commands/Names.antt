-- ===== src/Ipc/Commands/Names.antt =====
-- src/ipc/protocol.rs: a command against its name in the table.
use obsctl_rs.Prelude.{
  ◌≡◌, ◌↔◌, true, ap, refl, some, any, find, map, In, In-find, get_elem?, ==_iff, ◌==◌, list_eq,
  nat_eq, Option-cases, inl, inr,
}
use obsctl_rs.Text.{Text, text}
use obsctl_rs.Tables.{distinct, find-key}
use obsctl_rs.Ipc.Commands.{
  ServerCommand, CommandSpec, commands, place, listed_at, listed_at_self, command_eq, spec, name,
  parse,
}

names-distinct : distinct (map (λ (s : CommandSpec). s.name) commands) ≡ true
unfolding distinct text any
names-distinct = refl

commands-distinct : distinct (map (λ (s : CommandSpec). s.command) commands) ≡ true
unfolding distinct any
commands-distinct = refl

-- A command has a row.
listed : (c : ServerCommand) → (s : CommandSpec) × In s commands × (s.command ≡ c)
unfolding listed_at
listed c = elim (Option-cases (get_elem? commands (place c))) [
  | inl nothing ↦ cc (rw (nothing, listed_at) at (listed_at_self c))
  | inr (s, hit) ↦ (s, (place c, hit), cc (rw (hit, listed_at) at (listed_at_self c)))
]

-- The row that `spec` reads is the one of the command: its `expect` does not panic.
pub spec-found :
    (s : CommandSpec)
    → In s commands
    → (find (λ r. r.command == s.command) commands ≡ some s) × (spec s.command ≡ s)
unfolding spec
spec-found s at =
    let hit = find-key (λ (r : CommandSpec). r.command) commands s commands-distinct at in
    (hit, rw hit refl)

-- For every command and every text, the text is parsed as the command exactly when it is the
-- command's name.
pub parse-name : (c : ServerCommand) (n : Text) → (parse n ≡ some c) ↔ (name c ≡ n)
unfolding name parse
parse-name c n = (
  λ h. elim (Option-cases (find (λ s. s.name == n) commands)) [
    | inl nothing ↦ cc (rw nothing at h)
    | inr (s, hit) ↦
        (let (at, named) = In-find (λ (r : CommandSpec). r.name == n) commands s hit in
          let e : s.command ≡ c = cc (rw hit at h) in
          rw (← e, name, (spec-found s at).1) ((==_iff s.name n).0 named))
  ],
  λ h.
      let (s, at, e) = listed c in
      let found = (spec-found s at).1 in
      let n' : s.name ≡ n = cc (found, e, h) in
      let hit = find-key (λ (r : CommandSpec). r.name) commands s names-distinct at in
      rw (← n', hit) (ap some e),
)
