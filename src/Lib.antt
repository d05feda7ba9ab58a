-- ===== src/Lib.antt =====
-- Verification of the unraid plugin, a Rust program that manages an Unraid server: its docker
-- containers, shares, exports and virtual machines.
--
-- The plugin adopts a container into Unraid's dockerMan. It reads the live container into a
-- `RunSpec`, renders a template with dockerMan's own code, parses the rendered `docker create` back
-- into a `RunSpec`, and lets the adopt go on only if the two agree (the fidelity gate). The adopt is
-- a list of steps that `apply` runs on the host, and rolls back if one fails before the rebuild. The
-- volumes it makes carry ownership labels. Beside that, it plans fsids that are unique among the NFS
-- exports, changes a share's cache by a query to emhttp, whose effect
-- it checks, and refuses the verbs on virtual machines where libvirt is not live.
--
-- What models which part (paths from the repository's root):
--   Base, Text, Order, Map: Rust's standard library, as far as the program uses it. A `String` is
--     the list of its code points (its bytes, from Text/Utf8, where the source reads bytes), a
--     `BTreeMap` is the list of its entries in the order of the keys, and a `Result` has its error
--     as a value.
--   Shell: shell_split and shell_quote of src/docker_adopt/spec.rs. The splitter is a step function
--     on the state of the source's loop, and a mode says which of its inner loops it is in.
--   Spec: RunSpec and its normal form; Spec/Mounts and Spec/Parse: parse_publish, parse_volume,
--     parse_mount and parse_command; Spec/Diff: diff and its parts; Spec/Command:
--     docker_run_command, all of src/docker_adopt/spec.rs. The texts of the differences are kept as
--     data (`Message`).
--   Inspect: docker's answers as src/docker_adopt/inspect.rs reads them; Inspect/Live: the parts of
--     live_spec, which Inspect/Translated puts together.
--   Template: dockerMan's template and its escapes; Template/Render: render, both of
--     src/docker_adopt/template.rs. Names: validate_name and the like.
--   Paths: the paths of Rust's std, as their components. Ownership and Ownership/Conversions: the
--     labels and the conversions of src/docker_adopt/ownership.rs. Orphans, Orphans/Compose and
--     Orphans/Suffixes: what a stack leaves behind, and the names of the folders that volumes are
--     copied to.
--   Planning: plan_adopt of src/docker_adopt/mod.rs: Planning/Volumes and Planning/Steps make the
--     steps, Planning/Fidelity the gate, Planning/Adopting composes them. Planning/Protocol says, by
--     the steps alone, in which order an adopt may run.
--   Adopt: Step of src/docker_adopt/mod.rs and PrivilegedOp of src/docker_adopt/privileged.rs;
--     Adopt/Apply, Adopt/Rollback and Adopt/Loop: apply of src/docker_adopt/mod.rs, over any runner
--     of single steps; Adopt/Steps: run_step, the runner that apply is given, with its arms and
--     helpers in Adopt/Recovery, Adopt/Host, Adopt/Verify and Adopt/Volumes, over the operations of
--     the host (`HostOps`). Adopt/Undo says, by the steps alone, what apply promises.
--   Effects: the asynchronous functions of the plugin, as functions of the host's state with an
--     outcome that may be an error.
--   Privileged: who may run which of the root operations, by src/docker_adopt/privileged.rs;
--     Privileged/CopyInto: copy_into_problem; Privileged/RunId and Privileged/Checked: what is
--     checked before root acts; Privileged/Templates: write_template_in and restore_template_in.
--   Safefs: the files of a directory, by src/docker_adopt/safefs.rs, over what the directory has and
--     which system calls fail (`Faults`).
--   Labels: src/labels.rs.
--   Fsid: the hash and plan_fsids of src/nfs_fsid.rs.
--   Cache: src/share_cache.rs, the request, the query that is sent to emhttp; Cache/Ini: its ini
--     files; Cache/ReadBack: the check of what emhttp has written; Cache/Write: apply_in, over any
--     files and socket; Cache/Plan: list_in, op_for and plan_in. Cache/Decode reads a query back.
--   Vm: src/vm_availability.rs and the probe of src/libvirt_stack.rs, over what the local files say.
--
-- Loops over lists are structural. The probe of plan_fsids runs on fuel, one more than the fsids in
-- use, and Fsid/Total shows that this is enough whenever fewer fsids are in use than there are. The
-- digits of a number are found with fuel above the number, of which they are never more.
--
-- The search for a free folder name runs on fuel, one more than the names in use, and
-- Orphans/Apart shows that it is enough.
--
-- Not modelled: the masks of src/docker_adopt/redact.rs and its test of a key for a secret
-- (arguments of what uses them), the texts that Rust's `{:?}` makes of a value (`Wording`),
-- the JSON of a container's unmodelled options (a field of the answer), the edits of a template
-- after it is rendered, and the parts of the plugin that have no file above. The GraphQL client, the
-- process and file calls and the JSON decoder are the world around the model: where a definition
-- needs one, it takes it as an argument.
pub mod Base
pub mod Text
pub mod Order
pub mod Map
pub mod Labels
pub mod Adopt
pub mod Cache
pub mod Effects
pub mod Fsid
pub mod Inspect
pub mod Names
pub mod Orphans
pub mod Ownership
pub mod Paths
pub mod Planning
pub mod Privileged
pub mod Safefs
pub mod Shell
pub mod Spec
pub mod Template
pub mod Vm
