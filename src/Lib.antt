-- ===== src/Lib.antt =====
-- NVMeVirt: the software-defined NVMe device, its FTL for zoned namespaces, its page-mapping FTL and
-- the SSD below them.
--
-- The dispatcher of io.c hands a command to the FTL of its namespace. For a zoned one that is
-- zns_proc_nvme_io_cmd: writes, appends and reads go through the checks of the zone, take space in a
-- write buffer and are timed by the NAND and channel models; the management commands change the states
-- of zones or report them. For a conventional one that is conv_proc_nvme_io_cmd: the logical pages are
-- dealt out to several instances, each with its own SSD, mapping tables, lines and garbage collection.
--
-- Parts:
--   Ssd/Config       ssd_config.h: the constants of three models (SAMSUNG_970PRO, ZNS_PROTOTYPE,
--                    WD_ZN540)
--   Ssd/Params       ssd.h, ssd.c: struct ssdparams, ssd_init_params
--   Ssd/Buffer       ssd.c: buffer_init, buffer_allocate, buffer_release, buffer_refill
--   Ssd/Channel      channel_model.c, channel_model.h: chmodel_init, chmodel_request
--   Ssd/Nand         ssd.h, ssd.c: struct ssd and its parts; Nand/Ops has ssd_init, ssd_advance_nand,
--                    ssd_advance_pcie, ssd_advance_write_buffer and ssd_next_idle_time; Nand/Ops/Times
--                    has the time of each LUN
--   Zns/Sc           nvme_zns.h, nvme.h: the status codes
--   Zns/State        nvme_zns.h, zns_ftl.h, nvmev.h: zones, struct zns_ftl, requests and results
--   Zns/Address      zns_ftl.h, zns_read_write.c: the arithmetic of zones, blocks, pages and dies
--   Zns/Resource     zns_ftl.h: is_zone_resource_avail, acquire_zone_resource and their kin
--   Zns/Init         zns_ftl.c: zns_init_namespace and the functions that it calls
--   Zns/Send         zns_mgmt_send.c: one function per action, zns_zmgmt_send
--   Zns/Recv         zns_mgmt_recv.c: the report and __prp_transfer_data
--   Zns/Write        zns_read_write.c: __increase_write_ptr, __zns_write (zns_write_plain here)
--   Zns/Zrwa         zns_read_write.c: __zns_write_zrwa, zns_write
--   Zns/Read         zns_read_write.c: zns_read
--   Zns/Command      zns_ftl.c: zns_flush, zns_proc_nvme_io_cmd
--   Zns/Consistent   the invariant of the zones and their counters
--   Conv/State       conv_ftl.h, ssd.h: struct conv_ftl, lines, write pointers, page states; the calls
--                    of pqueue.h
--   Conv/Map         conv_ftl.c: maptbl and rmap; ssd.h: get_pg, get_blk
--   Conv/Lines       conv_ftl.c: the lists of lines, the tests for garbage collection, the credits
--   Conv/Pointer     conv_ftl.c: prepare_write_pointer, advance_write_pointer, get_new_page
--   Conv/Mark        conv_ftl.c: mark_page_valid, mark_page_invalid, mark_block_free
--   Conv/Install     the steps that conv_write and gc_write_page have in common
--   Conv/Gc          conv_ftl.c: from gc_read_page to check_and_refill_write_credit
--   Conv/Init        conv_ftl.c: conv_init_params, conv_init_ftl; ssd.c: ssd_init_nand_blk and its kin
--   Conv/Namespace   nvmev.h, conv_ftl.c: struct nvmev_ns, conv_init_namespace
--   Conv/Read        conv_ftl.c: conv_read
--   Conv/Write       conv_ftl.c: conv_write
--   Conv/Command     conv_ftl.c: conv_flush, conv_proc_nvme_io_cmd
--   Conv/Geometry    what the page-mapping FTL asks of a geometry; the numbering of pages
--   Conv/Consistent  the agreement of maptbl, rmap and the page states
--   Devices/Simple   simple_ftl.c: the model of a device with a fixed time per I/O unit
--   Io/Queue         io.c, nvmev.h: struct nvmev_io_work, __insert_req_sorted, the entry of
--                    __allocate_work_queue_entry and __enqueue_io_req; Io/Queue/Chain has the lists
--                    that its chains stand for
--   Io/Workers       io.c: __reclaim_completed_reqs, schedule_internal_operation,
--                    NVMEV_IO_WORKER_INIT
--   Base             numbers, lists as arrays, and Run: how a piece of code ends
--   Scenarios        the theorems applied to small drives: Drives has zoned ones, Parts a conventional
--                    one, Devices a simple one and a work queue
--
-- State. struct zns_ftl is the record ZnsFtl, and a handler is a function from one to a Reply with
-- the next: its return value, the command (which an append changes), the result and the FTL. A
-- handler runs to its end before the next command, as the dispatcher thread runs it. The calls of
-- schedule_internal_operation are logged in the field `scheduled`; Io/Workers has what such a call
-- does to a work queue. What the thread of a worker then does with the entry is not modelled. The
-- storage is a function of the offset from storage_base_addr.
--
-- struct conv_ftl is the record ConvFtl. Its arrays are functions: `maptbl` of the logical page, `rmap`
-- and `pages` of the number that ppa2pgidx gives a page, `blocks` of the number of the block, `lines`
-- of the id. An access tests its index first where the code's array has an end. ConvNamespace holds
-- the instances, the PCIe link and the write buffer that they share.
--
-- Ends of a run. A `Run` is `ok` with a value, or a fault: `bug` is a failed NVMEV_ASSERT, `undefined`
-- is an access out of an array, a division by zero or a read of an unset variable, and `out_of_fuel`
-- is the model's own. `Ensures P r` says that `r` does end, in the first two ways or with a value that
-- has `P`, and never without fuel; `Returns P r` says that it ends with a value that has `P`.
--
-- Arguments that stand for what is not in the repository: `cpu_clock i` is the reading number `i`
-- of the kernel's clock, `garbage` is what an unset variable holds, `prp_list` is the list of the
-- host that prp2 points to, of which the code maps one page, `memory` is what allocated memory
-- held. Allocations succeed. VictimQueue is the priority queue of the lines to collect, of which no
-- law is assumed. `stack_ppa` is what the unset variable `ppa` of do_gc holds before its fields are
-- written, and `pba_pcent` is what a computation with floating point gives.
--
-- Numbers are naturals. The wraps of 32-bit and 64-bit arithmetic are written out in the FTL and the
-- channel model; the `int` and `unsigned long` fields of struct ssdparams are taken not to overflow.
--
-- Fuel. The loop of chmodel_request has the size of its ring; the transfer loop of a NAND read has
-- the bytes left; the loops over pages have the number of pages plus one or two; the PRP walk has
-- the bytes plus one; the loops of conv_read and conv_write have the number of pages plus two; the
-- loop of __schedule_io_units has the bytes plus one; the walks along a work queue have the size of
-- its array plus one. These are meant for a geometry in which a program unit, a flash page and a
-- channel transfer are not empty and a page has two sectors or more (IsGeometry); each round then
-- takes at least one slot, byte or page.
--
-- Not modelled: kv_ftl.c, bitmap.c, append_only.c; in io.c the loops of the dispatcher and the
-- workers, the copies of data, and the completion queues; pqueue, a library of another project;
-- admin.c, pci.c, main.c and dma.c, which work on the kernel's interfaces; freeing of memory; the
-- lock of a write buffer, whose operations are single steps here.
mod Base
pub mod Ssd
pub mod Zns
pub mod Conv
pub mod Devices
pub mod Io
mod Scenarios
