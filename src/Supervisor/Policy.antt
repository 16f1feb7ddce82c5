-- ===== src/Supervisor/Policy.antt =====
-- `policy_satisfies` of crates/frank-orchestrator/src/validate.rs: whether an agent's policy covers
-- what a proposed task asks for.
use frank.Prelude.{ℕ, Bool, true, false, ◌≡◌, ◌≤◌, ◌↔◌, ◌&&◌, arith}
use frank.Protocol.Records.{
  FilesystemPolicy, ShellPolicy, NetworkPolicy, ApprovalPolicy, AgentPolicy,
}

-- The profile's value comes first, the requirement second, as in `policy_satisfies`.
unfoldable pub filesystem_ok : FilesystemPolicy → FilesystemPolicy → Bool
filesystem_ok own FilesystemPolicy.read_only = true
filesystem_ok FilesystemPolicy.workspace_write FilesystemPolicy.workspace_write = true
filesystem_ok FilesystemPolicy.read_only FilesystemPolicy.workspace_write = false

unfoldable pub shell_ok : ShellPolicy → ShellPolicy → Bool
shell_ok ShellPolicy.deny ShellPolicy.deny = true
shell_ok ShellPolicy.ask ShellPolicy.deny = false
shell_ok ShellPolicy.allow ShellPolicy.deny = false
shell_ok ShellPolicy.deny ShellPolicy.ask = false
shell_ok ShellPolicy.ask ShellPolicy.ask = true
shell_ok ShellPolicy.allow ShellPolicy.ask = true
shell_ok ShellPolicy.deny ShellPolicy.allow = false
shell_ok ShellPolicy.ask ShellPolicy.allow = false
shell_ok ShellPolicy.allow ShellPolicy.allow = true

unfoldable pub network_ok : NetworkPolicy → NetworkPolicy → Bool
network_ok NetworkPolicy.deny NetworkPolicy.deny = true
network_ok NetworkPolicy.ask NetworkPolicy.deny = false
network_ok NetworkPolicy.allow NetworkPolicy.deny = false
network_ok NetworkPolicy.deny NetworkPolicy.ask = false
network_ok NetworkPolicy.ask NetworkPolicy.ask = true
network_ok NetworkPolicy.allow NetworkPolicy.ask = true
network_ok NetworkPolicy.deny NetworkPolicy.allow = false
network_ok NetworkPolicy.ask NetworkPolicy.allow = false
network_ok NetworkPolicy.allow NetworkPolicy.allow = true

unfoldable pub approval_ok : ApprovalPolicy → ApprovalPolicy → Bool
approval_ok ApprovalPolicy.never ApprovalPolicy.never = true
approval_ok ApprovalPolicy.ask ApprovalPolicy.never = false
approval_ok own ApprovalPolicy.ask = true

unfoldable pub policy_satisfies : AgentPolicy → AgentPolicy → Bool
unfolding filesystem_ok shell_ok network_ok approval_ok
policy_satisfies profile requirement =
    filesystem_ok profile.filesystem requirement.filesystem
    && shell_ok profile.shell requirement.shell
    && network_ok profile.network requirement.network
    && approval_ok profile.approval requirement.approval

-- How much a policy leaves to the agent: nothing, what is asked for first, everything.
abbrev pub filesystem_level : FilesystemPolicy → ℕ
filesystem_level FilesystemPolicy.read_only = 0
filesystem_level FilesystemPolicy.workspace_write = 1

abbrev pub shell_level : ShellPolicy → ℕ
shell_level ShellPolicy.deny = 0
shell_level ShellPolicy.ask = 1
shell_level ShellPolicy.allow = 2

abbrev pub network_level : NetworkPolicy → ℕ
network_level NetworkPolicy.deny = 0
network_level NetworkPolicy.ask = 1
network_level NetworkPolicy.allow = 2

abbrev pub approval_level : ApprovalPolicy → ℕ
approval_level ApprovalPolicy.ask = 0
approval_level ApprovalPolicy.never = 1

-- At least the level that is required, and above nothing only where that is required.
abbrev pub Provides : ℕ → ℕ → Type 0
Provides own required = (required ≤ own) × ((own ≡ 0) ↔ (required ≡ 0))

pub record Covers (profile requirement : AgentPolicy) : Type 0 where
  pub files : filesystem_level requirement.filesystem ≤ filesystem_level profile.filesystem
  pub shell : Provides (shell_level profile.shell) (shell_level requirement.shell)
  pub network : Provides (network_level profile.network) (network_level requirement.network)
  pub approval : approval_level requirement.approval ≤ approval_level profile.approval

filesystem_ok_iff :
    (own required : FilesystemPolicy)
    → (filesystem_ok own required ≡ true) ↔ (filesystem_level required ≤ filesystem_level own)
unfolding filesystem_ok
filesystem_ok_iff own required = (λ h. ground (arith, h), λ h. ground (arith, h))

shell_ok_iff :
    (own required : ShellPolicy)
    → (shell_ok own required ≡ true) ↔ Provides (shell_level own) (shell_level required)
unfolding shell_ok
shell_ok_iff own required = (
  λ h. (ground (arith, h), (λ e. ground (arith, h, e), λ e. ground (arith, h, e))),
  λ h. ground (arith, h.0, h.1.0, h.1.1),
)

network_ok_iff :
    (own required : NetworkPolicy)
    → (network_ok own required ≡ true) ↔ Provides (network_level own) (network_level required)
unfolding network_ok
network_ok_iff own required = (
  λ h. (ground (arith, h), (λ e. ground (arith, h, e), λ e. ground (arith, h, e))),
  λ h. ground (arith, h.0, h.1.0, h.1.1),
)

approval_ok_iff :
    (own required : ApprovalPolicy)
    → (approval_ok own required ≡ true) ↔ (approval_level required ≤ approval_level own)
unfolding approval_ok
approval_ok_iff own required = (λ h. ground (arith, h), λ h. ground (arith, h))

-- The four tests, one by one.
all_four :
    (a b c d : Bool)
    → ((a && b && c && d) ≡ true) ↔ ((a ≡ true) × (b ≡ true) × (c ≡ true) × (d ≡ true))
all_four a b c d = (
  λ h. (ground (arith, h), ground (arith, h), ground (arith, h), ground (arith, h)),
  λ h. ground (arith, h.0, h.1, h.2, h.3),
)

-- A profile satisfies a requirement exactly where it covers it: it leaves the agent at least as much
-- of the files, the shell, the network and of approvals, and has no shell or no network exactly
-- where the requirement has none.
pub policy_satisfies-Covers :
    (profile requirement : AgentPolicy)
    → (policy_satisfies profile requirement ≡ true) ↔ Covers profile requirement
unfolding policy_satisfies
policy_satisfies-Covers p q =
    let split =
      all_four (filesystem_ok p.filesystem q.filesystem) (shell_ok p.shell q.shell)
        (network_ok p.network q.network) (approval_ok p.approval q.approval) in
    (
      λ h. record {
        files = (filesystem_ok_iff p.filesystem q.filesystem).0 (split.0 h).0;
        shell = (shell_ok_iff p.shell q.shell).0 (split.0 h).1;
        network = (network_ok_iff p.network q.network).0 (split.0 h).2;
        approval = (approval_ok_iff p.approval q.approval).0 (split.0 h).3;
      },
      λ c. split.1 (
        (filesystem_ok_iff p.filesystem q.filesystem).1 c.files,
        (shell_ok_iff p.shell q.shell).1 c.shell,
        (network_ok_iff p.network q.network).1 c.network,
        (approval_ok_iff p.approval q.approval).1 c.approval,
      ),
    )
